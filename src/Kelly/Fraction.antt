-- ===== src/Kelly/Fraction.antt =====
-- Where the odds do not overflow, the stake is at most `conservative_fraction`.

use verdict_risk.Kelly.{require_probability, scale_stake, kelly_stake, kelly_fraction}
use verdict_risk.Py.Except.{Result, ok}
use verdict_risk.Py.Except.Ensures.{Ensures, Ensures-if, Ensures-returned}
use verdict_risk.Py.Float.{
  Float, lt-eq-not-le, le_of_lt, lt-le_trans, le_trans, not_nan_of_le, is_nan, is_inf, is_finite,
  lt, le, IsDouble, IsDouble-quotient, div_pos, quotient, sub, mul, div, py_min, py_max, zero_float,
  one_float,
}
use verdict_risk.Py.Float.Plus.{
  IsPlus, complement-IsPlus, sub-le, quotient-le_one, mul-le, IsPlus-of_positive, finite_below,
  quotient-IsPlus, mul-IsPlus, one_finite,
}
use verdict_risk.Prelude.{String, ◌≡◌, refl, subst, true, false, not, ◌&&◌, ◌||◌, arith}

-- The edge is at most the odds.
edge_le :
    (p_win b : Float)
    → lt zero_float p_win ≡ true
    → lt p_win one_float ≡ true
    → IsPlus b
    → is_finite b ≡ true
    → IsDouble b
    → le (sub (mul p_win b) (sub one_float p_win)) b ≡ true
edge_le p_win b h k pb fb db =
    let pp = IsPlus-of_positive p_win h in
    let below = le_of_lt p_win one_float k in
    let fp = finite_below p_win one_float pp one_finite below in
    let product = mul-le p_win b fp below pb fb db in
    let (pm, dm) = mul-IsPlus p_win b pp fp pb fb in
    le_trans (sub (mul p_win b) (sub one_float p_win)) (mul p_win b) b
      (sub-le (mul p_win b) (sub one_float p_win) dm (finite_below (mul p_win b) b pm fb product)
        (complement-IsPlus p_win h k))
      product

clamp_le :
    (z o x c : Float)
    → lt z c ≡ true
    → le x c ≡ true
    → is_nan o ≡ false
    → le (py_max z (py_min o x)) c ≡ true
unfolding py_max py_min
clamp_le z o x c h l n =
    ground (arith, le_of_lt z c h, not_nan_of_le x c l, lt-eq-not-le x o, le_trans o x c)

positive_of : (x b : Float) → le x b ≡ true → le x zero_float ≡ false → lt zero_float x ≡ true
unfolding is_nan
positive_of x b l h =
    let (num, _) = not_nan_of_le x b l in ground (arith, lt-eq-not-le zero_float x refl num)

abbrev pub AtMost : Float → Float → Type 0
AtMost c x = le x c ≡ true

scale_stake-AtMost :
    (edge b c : Float)
    → lt zero_float edge ≡ true
    → le edge b ≡ true
    → is_finite b ≡ true
    → lt zero_float c ≡ true
    → le c one_float ≡ true
    → IsDouble c
    → Ensures (AtMost c) (scale_stake edge b c)
unfolding scale_stake is_nan
scale_stake-AtMost edge b c h l fb k m dc =
    let positive = lt-le_trans zero_float edge b h l in
    let pe = IsPlus-of_positive edge h in
    let fe = finite_below edge b pe fb l in
    let share = quotient-le_one edge b fe fb positive l in
    let fs =
      finite_below (quotient edge b) one_float (quotient-IsPlus edge b pe fb positive) one_finite
        share in
    let pc = IsPlus-of_positive c k in
    let fc = finite_below c one_float pc one_finite m in
    rw (div_pos edge b positive) (
      clamp_le zero_float one_float (mul (quotient edge b) c) c k
        (mul-le (quotient edge b) c fs share pc fc dc) refl)

-- A price whose odds are finite.
abbrev pub HasOdds : Float → Type 0
HasOdds price = (b : Float) × (div (sub one_float price) price ≡ ok b) × (is_finite b ≡ true)

kelly_stake-AtMost :
    (p_win price c : Float)
    → (lt zero_float p_win ≡ true) × (lt p_win one_float ≡ true)
    → (lt zero_float price ≡ true) × (lt price one_float ≡ true)
    → (lt zero_float c ≡ true) × (le c one_float ≡ true)
    → IsDouble c
    → HasOdds price
    → Ensures (AtMost c) (kelly_stake p_win price c)
unfolding kelly_stake
kelly_stake-AtMost p_win price c (p0, p1) (q0, q1) (c0, c1) dc (b, e, fb) =
    let fq =
      finite_below price one_float (IsPlus-of_positive price q0) one_finite
        (le_of_lt price one_float q1) in
    let quot : quotient (sub one_float price) price ≡ b =
      cc (e, div_pos (sub one_float price) price q0) in
    let pb =
      subst IsPlus quot
        (quotient-IsPlus (sub one_float price) price (complement-IsPlus price q0 q1) fq q0) in
    let db = subst IsDouble quot (IsDouble-quotient (sub one_float price) price) in
    let edge = sub (mul p_win b) (sub one_float p_win) in
    rw e (
      Ensures-if (AtMost c) (le edge zero_float) (ok zero_float) (scale_stake edge b c)
        (λ lost. le_of_lt zero_float c c0)
        (λ won.
          scale_stake-AtMost edge b c (positive_of edge b (edge_le p_win b p0 p1 pb fb db) won)
            (edge_le p_win b p0 p1 pb fb db) fb c0 c1 dc))

-- A probability is refused, or leads on with its bounds.
require_probability-AtMost :
    (name : String) (x c : Float) (next : Result Float)
    → lt zero_float c ≡ true
    → (lt zero_float x ≡ true → lt x one_float ≡ true → Ensures (AtMost c) next)
    → Ensures (AtMost c) (require_probability name x next)
unfolding require_probability
require_probability-AtMost name x c next h k =
    Ensures-if (AtMost c) (is_nan x || is_inf x) _ _ (λ bad. le_of_lt zero_float c h)
      (λ good.
        Ensures-if (AtMost c) (not (lt zero_float x && lt x one_float)) _ next (λ out. tt)
          (λ within. k (ground arith) (ground arith)))

kelly_fraction-AtMost :
    (p_win price c : Float)
    → IsDouble c
    → HasOdds price
    → Ensures (AtMost c) (kelly_fraction p_win price c)
unfolding kelly_fraction
kelly_fraction-AtMost p_win price c dc odds =
    Ensures-if (AtMost c) (not (lt zero_float c && le c one_float)) _ _ (λ out. tt)
      (λ within.
        let c0 : lt zero_float c ≡ true = ground arith in
        let c1 : le c one_float ≡ true = ground arith in
        require_probability-AtMost "p_win" p_win c _ c0 (λ p0 p1.
          require_probability-AtMost "price" price c _ c0
            (λ q0 q1. kelly_stake-AtMost p_win price c (p0, p1) (q0, q1) (c0, c1) dc odds)))

-- Where the odds (1 - price) / price are finite, a stake that kelly_fraction returns is at most
-- conservative_fraction, which is a double.
pub kelly_fraction-le :
    (p_win price c x : Float)
    → IsDouble c
    → HasOdds price
    → kelly_fraction p_win price c ≡ ok x
    → le x c ≡ true
kelly_fraction-le p_win price c x dc odds e =
    Ensures-returned (AtMost c) (kelly_fraction p_win price c) x
      (kelly_fraction-AtMost p_win price c dc odds) e
