-- ===== src/Kelly/Bounds.antt =====
-- What `kelly_fraction` returns.

use verdict_risk.Py.Float.{
  plus, Float, nan, infinite, finite, is_nan_of_finite, le_of_lt, le_refl, not_nan_of_le, is_nan,
  is_inf, is_finite, lt, le, neg, add, sub, mul, div, py_min, py_max, zero_float, one_float,
}
use verdict_risk.Py.Except.{Result, ok}
use verdict_risk.Prelude.{
  if◌then◌else◌, String, ◌≡◌, refl, subst, ◌⊎◌, inl, inr, true, not, ◌&&◌, ◌||◌, arith,
}
use verdict_risk.Py.Float.Plus.{one_finite}
use verdict_risk.Py.Except.Ensures.{Ensures, Ensures-if, Ensures-bind}
use verdict_risk.Kelly.{require_probability, scale_stake, kelly_stake, kelly_fraction}

-- The clamp of the last line between any two ordered bounds, of any float, NaN included.
clamp_bounds :
    (z o x : Float)
    → le z o ≡ true
    → (le z (py_max z (py_min o x)) ≡ true) × (le (py_max z (py_min o x)) o ≡ true)
unfolding py_max py_min
clamp_bounds z o x h =
    ground
      (arith, not_nan_of_le z o h, le_refl z, le_refl o, le_of_lt z x, le_of_lt z o, le_of_lt x o)

zero_le_one : le zero_float one_float ≡ true
unfolding le
zero_le_one = refl

-- A share of the bankroll.
abbrev pub InUnit : Float → Type 0
InUnit x = (le zero_float x ≡ true) × (le x one_float ≡ true)

-- A stake that is returned lies between 0 and 1.
abbrev pub IsStake : Result Float → Type 0
IsStake = Ensures InUnit

zero-IsStake : IsStake (ok zero_float)
unfolding le
zero-IsStake = (refl, refl)

scale_stake-IsStake : (edge b c : Float) → IsStake (scale_stake edge b c)
unfolding scale_stake
scale_stake-IsStake edge b c =
    Ensures-bind InUnit (div edge b) _
      (λ x e. clamp_bounds zero_float one_float (mul x c) zero_le_one)

kelly_stake-IsStake : (p_win price c : Float) → IsStake (kelly_stake p_win price c)
unfolding kelly_stake
kelly_stake-IsStake p_win price c = Ensures-bind InUnit (div (sub one_float price) price) _ (λ b e.
    let edge = sub (mul p_win b) (sub one_float p_win) in
    Ensures-if InUnit (le edge zero_float) _ _ (λ lost. zero-IsStake)
      (λ won. scale_stake-IsStake edge b c))

require_probability-IsStake :
    (name : String) (x : Float) (next : Result Float)
    → IsStake next
    → IsStake (require_probability name x next)
unfolding require_probability
require_probability-IsStake name x next h =
    Ensures-if InUnit (is_nan x || is_inf x) _ _ (λ bad. zero-IsStake)
      (λ good.
        Ensures-if InUnit (not (lt zero_float x && lt x one_float)) _ _ (λ out. tt) (λ within. h))

kelly_fraction-IsStake : (p_win price c : Float) → IsStake (kelly_fraction p_win price c)
unfolding kelly_fraction
kelly_fraction-IsStake p_win price c =
    let stake = kelly_stake p_win price c in
    Ensures-if InUnit (not (lt zero_float c && le c one_float)) _ _ (λ out. tt)
      (λ within.
        require_probability-IsStake "p_win" p_win (require_probability "price" price stake)
          (require_probability-IsStake "price" price stake (kelly_stake-IsStake p_win price c)))

-- Whatever the three inputs are, a stake that kelly_fraction returns lies between 0 and 1.
pub kelly_fraction_bounds :
    (p_win price c x : Float)
    → kelly_fraction p_win price c ≡ ok x
    → (le zero_float x ≡ true) × (le x one_float ≡ true)
kelly_fraction_bounds p_win price c x e = subst IsStake e (kelly_fraction-IsStake p_win price c)

zero_finite : is_finite zero_float ≡ true
unfolding is_finite
zero_finite = refl

-- A number strictly between two finite ones is finite.
between_finite :
    (a b x : Float)
    → is_finite a ≡ true
    → is_finite b ≡ true
    → lt a x ≡ true
    → lt x b ≡ true
    → is_finite x ≡ true
unfolding is_finite lt
between_finite a b x h k l m = ground arith

probability_finite :
    (x : Float) → lt zero_float x ≡ true → lt x one_float ≡ true → is_finite x ≡ true
probability_finite x h k = between_finite zero_float one_float x zero_finite one_finite h k

-- A valid probability changes nothing.
require_probability_valid :
    (name : String) (x : Float) (next : Result Float)
    → lt zero_float x ≡ true
    → lt x one_float ≡ true
    → require_probability name x next ≡ next
unfolding require_probability
require_probability_valid name x next h k =
    ground (arith, is_nan_of_finite x, probability_finite x h k)

mul_infinite : (x : Float) → lt (finite plus 0) x ≡ true → mul x (infinite plus) ≡ infinite plus
unfolding mul lt
mul_infinite x h = ground arith

infinite_sub : (x : Float) → (sub (infinite plus) x ≡ infinite plus) ⊎ (sub (infinite plus) x ≡ nan)
unfolding sub add neg
infinite_sub x = ground arith

-- From an infinite or a NaN edge on.
stake_of : Float → Float → Result Float
stake_of edge c = if le edge zero_float then ok zero_float else scale_stake edge (infinite plus) c

infinite_stake : (c : Float) → stake_of (infinite plus) c ≡ ok one_float
unfolding stake_of scale_stake div mul py_min py_max lt le
infinite_stake c = ground arith

nan_stake : (c : Float) → stake_of nan c ≡ ok one_float
unfolding stake_of scale_stake div mul py_min py_max lt le
nan_stake c = ground arith

kelly_stake_overflow :
    (p_win price c : Float)
    → lt zero_float p_win ≡ true
    → div (sub one_float price) price ≡ ok (infinite plus)
    → kelly_stake p_win price c ≡ ok one_float
unfolding kelly_stake stake_of
kelly_stake_overflow p_win price c h o =
    rw (o, mul_infinite p_win h)
      (elim (infinite_sub (sub one_float p_win)) [
        | inl e ↦ rw e (infinite_stake c)
        | inr e ↦ rw e (nan_stake c)
      ])

-- Where the odds (1 - price) / price of a valid price overflow to an infinity, the stake of every
-- valid probability and every valid conservative_fraction is 1, the whole bankroll.
pub kelly_fraction_overflow :
    (p_win price c : Float)
    → (lt zero_float p_win ≡ true) × (lt p_win one_float ≡ true)
    → (lt zero_float price ≡ true) × (lt price one_float ≡ true)
    → (lt zero_float c ≡ true) × (le c one_float ≡ true)
    → div (sub one_float price) price ≡ ok (infinite plus)
    → kelly_fraction p_win price c ≡ ok one_float
unfolding kelly_fraction
kelly_fraction_overflow p_win price c (p0, p1) (q0, q1) (r0, r1) o =
    rw (r0, r1)
      (cc (
        require_probability_valid "p_win" p_win
            (require_probability "price" price (kelly_stake p_win price c)) p0 p1,
        require_probability_valid "price" price (kelly_stake p_win price c) q0 q1,
        kelly_stake_overflow p_win price c p0 o,
      ))
