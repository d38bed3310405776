-- ===== src/Py/Float/Doubles.antt =====
-- Doubles: what the operations return, what rounding keeps, and that the operations grow with their
-- arguments.
use native.Mathlib.Nat.{mul-le-mul_right}
use verdict_risk.Prelude.{
  ltb, if◌then◌else◌, Bool-cases, ℕ, zero, suc, ◌+◌, ◌-◌, ◌*◌, ◌^◌, ◌≤◌, ◌<◌, ◌≡◌, refl, ap, ◌∙◌,
  inl, inr, true, false, arith,
}
use verdict_risk.Py.Float.Order.{
  Sign, Float, is_nan, is_finite, lt, le, le_refl, plus, minus, nan, infinite, finite,
}
use verdict_risk.Py.Float.Rounding.{magnitude, pack, round}
use verdict_risk.Py.Float.Rounding.Monotone.{
  IsScaled, magnitude_mono, magnitude_exact, magnitude-IsScaled,
}
use verdict_risk.Py.Float.Arith.{times, add_finite, add, mul, div}
use verdict_risk.Py.Float.Quotient.{quotient}

-- A finite value is a double if its units are a number below 2^53 times a power of two, within the
-- range.
abbrev pub IsDouble : Float → Type 0
IsDouble nan = Unit
IsDouble (infinite s) = Unit
IsDouble (finite s m) = IsScaled m × (m < 2 ^ 2098)

IsDouble-pack : (s : Sign) (m : ℕ) → (m < 2 ^ 2098 → IsScaled m) → IsDouble (pack s m)
unfolding pack
IsDouble-pack s m h = elim (Bool-cases (ltb m (2 ^ 2098))) [
  | inl fits ↦ rw fits (h (ground arith), ground arith)
  | inr over ↦ rw over tt
]

-- Every result of a rounding is a double.
pub IsDouble-round : (s : Sign) (num den : ℕ) → 0 < den → IsDouble (round s num den)
unfolding round
IsDouble-round s num den h =
    IsDouble-pack s (magnitude num den) (λ l. magnitude-IsScaled num den h l)

-- A double is not changed by rounding.
pub round_exact :
    (s : Sign) (m den : ℕ) → 0 < den → IsDouble (finite s m) → round s (m * den) den ≡ finite s m
unfolding round pack
round_exact s m den h (scaled, fits) = rw (magnitude_exact m den h scaled) (ground arith)

pack_mono : (m n : ℕ) → m ≤ n → le (pack plus m) (pack plus n) ≡ true
unfolding le pack
pack_mono m n h = ground arith

pack_anti : (m n : ℕ) → m ≤ n → le (pack minus n) (pack minus m) ≡ true
unfolding le pack
pack_anti m n h = ground arith

pack_signs : (m n : ℕ) → le (pack minus m) (pack plus n) ≡ true
unfolding le pack
pack_signs m n = ground arith

-- The two zeros.
vanishes : (m den : ℕ) → 0 < den → m ≡ 0 → magnitude m den ≡ 0
vanishes m den h e =
    ap (λ (n : ℕ). magnitude n den) (omega arith)
    ∙ magnitude_exact 0 den h (0, 0, omega arith, refl)

zeros : (m n : ℕ) → m ≡ 0 → n ≡ 0 → le (pack plus m) (pack minus n) ≡ true
unfolding le pack
zeros m n h k = ground arith

-- Signed exact values over one denominator.
pub round_mono :
    (s t : Sign) (a b den : ℕ)
    → 0 < den
    → le (finite s a) (finite t b) ≡ true
    → le (round s a den) (round t b den) ≡ true
unfolding round le
round_mono plus plus a b den h l =
    pack_mono (magnitude a den) (magnitude b den) (magnitude_mono a b den h (ground arith))
round_mono minus minus a b den h l =
    pack_anti (magnitude b den) (magnitude a den) (magnitude_mono b a den h (ground arith))
round_mono minus plus a b den h l = pack_signs (magnitude a den) (magnitude b den)
round_mono plus minus a b den h l =
    zeros (magnitude a den) (magnitude b den) (vanishes a den h (ground arith))
      (vanishes b den h (ground arith))

-- The same for the units of two numbers, times a common factor.
scale_le :
    (s t : Sign) (a b c : ℕ)
    → le (finite s a) (finite t b) ≡ true
    → le (finite s (a * c)) (finite t (b * c)) ≡ true
unfolding le
scale_le plus plus a b c l = ground (arith, mul-le-mul_right {m = a} {n = b} c (ground arith))
scale_le minus minus a b c l = ground (arith, mul-le-mul_right {m = b} {n = a} c (ground arith))
scale_le minus plus a b c l = refl
scale_le plus minus a b c l = rw (both_zero a b (ground arith)) refl
  where
    both_zero : (a b : ℕ) → a + b ≡ 0 → a * c + b * c ≡ 0
    both_zero a b h = grind arith

times_plus : (s : Sign) → times s plus ≡ s
times_plus plus = refl
times_plus minus = refl

pub IsDouble-quotient : (x y : Float) → IsDouble (quotient x y)
unfolding quotient div
IsDouble-quotient x (finite t zero) = tt
IsDouble-quotient nan nan = tt
IsDouble-quotient nan (infinite t) = tt
IsDouble-quotient nan (finite t (suc n)) = tt
IsDouble-quotient (infinite s) nan = tt
IsDouble-quotient (infinite s) (infinite t) = tt
IsDouble-quotient (infinite s) (finite t (suc n)) = tt
IsDouble-quotient (finite s m) nan = tt
IsDouble-quotient (finite s m) (infinite t) = ((0, 0, omega arith, refl), omega arith)
IsDouble-quotient (finite s m) (finite t (suc n)) =
    IsDouble-round (times s t) (m * 2 ^ 1074) (suc n) (omega arith)

-- The quotient by a positive number grows with the dividend.
pub quotient_mono :
    (x y e : Float)
    → is_finite x ≡ true
    → is_finite y ≡ true
    → is_finite e ≡ true
    → lt (finite plus 0) e ≡ true
    → le x y ≡ true
    → le (quotient x e) (quotient y e) ≡ true
unfolding quotient div is_finite lt
quotient_mono (finite s a) (finite t b) (finite plus (suc n)) h k l m o =
    rw (times_plus s, times_plus t)
      (round_mono s t (a * 2 ^ 1074) (b * 2 ^ 1074) (suc n) (omega arith)
        (scale_le s t a b (2 ^ 1074) o))
quotient_mono nan y e h k l m o = absurd (ground arith)
quotient_mono (infinite s) y e h k l m o = absurd (ground arith)
quotient_mono (finite s a) nan e h k l m o = absurd (ground arith)
quotient_mono (finite s a) (infinite t) e h k l m o = absurd (ground arith)
quotient_mono (finite s a) (finite t b) nan h k l m o = absurd (ground arith)
quotient_mono (finite s a) (finite t b) (infinite u) h k l m o = absurd (ground arith)
quotient_mono (finite s a) (finite t b) (finite minus n) h k l m o = absurd (ground arith)
quotient_mono (finite s a) (finite t b) (finite plus zero) h k l m o = absurd (ground arith)

-- The product with a number of sign plus grows.
pub mul_mono :
    (s t : Sign) (a b n : ℕ)
    → le (finite s a) (finite t b) ≡ true
    → le (mul (finite s a) (finite plus n)) (mul (finite t b) (finite plus n)) ≡ true
unfolding mul
mul_mono s t a b n l =
    rw (times_plus s, times_plus t)
      (round_mono s t (a * n) (b * n) (2 ^ 1074) (omega arith) (scale_le s t a b n l))

-- The exact sum of two finite numbers, as a sign and units.
sum_sign : Sign → ℕ → Sign → ℕ → Sign
sum_sign plus m plus n = plus
sum_sign minus m minus n = minus
sum_sign plus m minus n = if ltb m n then minus else plus
sum_sign minus m plus n = if ltb n m then minus else plus

sum_units : Sign → ℕ → Sign → ℕ → ℕ
sum_units plus m plus n = m + n
sum_units minus m minus n = m + n
sum_units plus m minus n = if ltb m n then n - m else m - n
sum_units minus m plus n = if ltb n m then m - n else n - m

add_finite-round :
    (s t : Sign) (m n : ℕ) → add_finite s m t n ≡ round (sum_sign s m t n) (sum_units s m t n) 1
unfolding add_finite sum_sign sum_units
add_finite-round plus plus m n = refl
add_finite-round minus minus m n = refl
add_finite-round plus minus m n = ground arith
add_finite-round minus plus m n = ground arith

sum_mono :
    (s t u : Sign) (a b n : ℕ)
    → le (finite s a) (finite t b) ≡ true
    → le
        (finite (sum_sign u n s a) (sum_units u n s a))
        (finite (sum_sign u n t b) (sum_units u n t b))
      ≡ true
unfolding le sum_sign sum_units
sum_mono s t u a b n l = ground arith

-- The sum with a fixed number grows.
pub add_mono :
    (x y z : Float)
    → is_finite x ≡ true
    → is_finite y ≡ true
    → is_nan z ≡ false
    → le x y ≡ true
    → le (add z x) (add z y) ≡ true
unfolding add is_finite is_nan
add_mono (finite s a) (finite t b) (finite u n) h k l o =
    rw (add_finite-round u s n a, add_finite-round u t n b)
      (round_mono (sum_sign u n s a) (sum_sign u n t b) (sum_units u n s a) (sum_units u n t b) 1
        (omega arith) (sum_mono s t u a b n o))
add_mono (finite s a) (finite t b) (infinite u) h k l o = le_refl (infinite u) refl
add_mono (finite s a) (finite t b) nan h k l o = absurd (ground arith)
add_mono nan y z h k l o = absurd (ground arith)
add_mono (infinite s) y z h k l o = absurd (ground arith)
add_mono (finite s a) nan z h k l o = absurd (ground arith)
add_mono (finite s a) (infinite t) z h k l o = absurd (ground arith)
