-- ===== src/Py/Float/Plus.antt =====
-- Doubles of sign plus: what a sum, a product and a quotient of them are at most.

use verdict_risk.Py.Float.{
  Sign, plus, minus, Float, nan, infinite, finite, is_nan, is_finite, lt, le, magnitude, round,
  IsDouble, IsDouble-round, round_exact, quotient_mono, mul_mono, add_mono, quotient, neg, add, sub,
  mul, div, zero_float, one_float,
}
use verdict_risk.Prelude.{
  ltb, Bool-cases, ℕ, zero, suc, ◌-◌, ◌*◌, ◌^◌, ◌<◌, ◌≡◌, refl, ap, ◌∙◌, subst, inl, inr, true,
  arith,
}
use verdict_risk.Py.Float.Rounding.{pack}

one-IsDouble : IsDouble one_float
one-IsDouble = ((1, 1074, omega arith, omega arith), omega arith)

-- A value of sign plus, zero included.
abbrev pub IsPlus : Float → Type 0
IsPlus nan = ⊥
IsPlus (infinite plus) = Unit
IsPlus (infinite minus) = ⊥
IsPlus (finite plus m) = Unit
IsPlus (finite minus m) = ⊥

IsPlus-pack : (m : ℕ) → IsPlus (pack plus m)
unfolding pack
IsPlus-pack m = elim (Bool-cases (ltb m (2 ^ 2098))) [
  | inl fits ↦ rw fits tt
  | inr over ↦ rw over tt
]

IsPlus-round : (num den : ℕ) → IsPlus (round plus num den)
unfolding round
IsPlus-round num den = IsPlus-pack (magnitude num den)

add_complement : (u m : ℕ) → m < u → add (finite plus u) (finite minus m) ≡ round plus (u - m) 1
unfolding add
add_complement u m h = ground arith

-- `1 - x` of a number between 0 and 1.
pub complement-IsPlus :
    (x : Float) → lt zero_float x ≡ true → lt x one_float ≡ true → IsPlus (sub one_float x)
unfolding lt sub neg
complement-IsPlus nan h k = absurd (ground arith)
complement-IsPlus (infinite plus) h k = absurd (ground arith)
complement-IsPlus (infinite minus) h k = absurd (ground arith)
complement-IsPlus (finite minus m) h k = absurd (ground arith)
complement-IsPlus (finite plus m) h k =
    rw (add_complement (2 ^ 1074) m (ground arith)) (IsPlus-round (2 ^ 1074 - m) 1)

add_zero : (s : Sign) (m : ℕ) → add (finite s m) (finite minus 0) ≡ round s (m * 1) 1
unfolding add
add_zero plus m = ground arith
add_zero minus m = ap (λ (n : ℕ). round minus n 1) (omega arith)

minus_zero : (n : ℕ) → le (finite minus n) (finite minus 0) ≡ true
unfolding le
minus_zero n = ground arith

minus_infinity : (s : Sign) (a : ℕ) → le (add (finite s a) (infinite minus)) (finite s a) ≡ true
unfolding add le
minus_infinity s a = refl

-- A number of sign plus is taken off a double.
pub sub-le : (x y : Float) → IsDouble x → is_finite x ≡ true → IsPlus y → le (sub x y) x ≡ true
unfolding sub neg is_finite is_nan
sub-le (finite s a) (finite plus n) dx fx py =
    let less =
      add_mono (finite minus n) (finite minus 0) (finite s a) refl refl refl (minus_zero n) in
    subst (λ (z : Float). le (add (finite s a) (finite minus n)) z ≡ true)
      (add_zero s a ∙ round_exact s a 1 (omega arith) dx) less
sub-le (finite s a) (infinite plus) dx fx py = minus_infinity s a
sub-le nan y dx fx py = absurd (ground arith)
sub-le (infinite s) y dx fx py = absurd (ground arith)
sub-le (finite s a) nan dx fx py = absurd py
sub-le (finite s a) (infinite minus) dx fx py = absurd py
sub-le (finite s a) (finite minus n) dx fx py = absurd py

quotient_self : (n : ℕ) → quotient (finite plus (suc n)) (finite plus (suc n)) ≡ one_float
unfolding quotient div
quotient_self n =
    ap (λ (k : ℕ). round plus k (suc n)) (grind arith)
    ∙ round_exact plus (2 ^ 1074) (suc n) (omega arith) one-IsDouble

-- The quotient of numbers, the first at most the second and the second positive, is at most 1.
pub quotient-le_one :
    (x b : Float)
    → is_finite x ≡ true
    → is_finite b ≡ true
    → lt zero_float b ≡ true
    → le x b ≡ true
    → le (quotient x b) one_float ≡ true
unfolding lt is_finite
quotient-le_one x (finite plus (suc n)) fx fb above l =
    subst (λ (z : Float). le (quotient x (finite plus (suc n))) z ≡ true) (quotient_self n)
      (quotient_mono x (finite plus (suc n)) (finite plus (suc n)) fx refl refl (ground arith) l)
quotient-le_one x (finite plus zero) fx fb above l = absurd (ground arith)
quotient-le_one x (finite minus n) fx fb above l = absurd (ground arith)
quotient-le_one x nan fx fb above l = absurd (ground arith)
quotient-le_one x (infinite s) fx fb above l = absurd (ground arith)

mul_one : (n : ℕ) → IsDouble (finite plus n) → mul one_float (finite plus n) ≡ finite plus n
unfolding mul
mul_one n h =
    ap (λ (k : ℕ). round plus k (2 ^ 1074)) (commuted (2 ^ 1074) n)
    ∙ round_exact plus n (2 ^ 1074) (omega arith) h
  where
    commuted : (a b : ℕ) → a * b ≡ b * a
    commuted a b = grind arith

-- A product of a number that is at most 1 with a positive double is at most that.
pub mul-le :
    (x c : Float)
    → is_finite x ≡ true
    → le x one_float ≡ true
    → IsPlus c
    → is_finite c ≡ true
    → IsDouble c
    → le (mul x c) c ≡ true
unfolding is_finite
mul-le (finite s a) (finite plus n) fx l pc fc dc =
    subst (λ (z : Float). le (mul (finite s a) (finite plus n)) z ≡ true) (mul_one n dc)
      (mul_mono s plus a (2 ^ 1074) n l)
mul-le nan c fx l pc fc dc = absurd (ground arith)
mul-le (infinite s) c fx l pc fc dc = absurd (ground arith)
mul-le (finite s a) nan fx l pc fc dc = absurd pc
mul-le (finite s a) (infinite t) fx l pc fc dc = absurd (ground arith)
mul-le (finite s a) (finite minus n) fx l pc fc dc = absurd pc

pub IsPlus-of_positive : (x : Float) → lt zero_float x ≡ true → IsPlus x
unfolding lt
IsPlus-of_positive nan h = absurd (ground arith)
IsPlus-of_positive (infinite plus) h = tt
IsPlus-of_positive (infinite minus) h = absurd (ground arith)
IsPlus-of_positive (finite plus m) h = tt
IsPlus-of_positive (finite minus m) h = absurd (ground arith)

-- A number of sign plus that is at most a finite one is finite.
pub finite_below :
    (x y : Float) → IsPlus x → is_finite y ≡ true → le x y ≡ true → is_finite x ≡ true
unfolding le is_finite
finite_below nan y p f l = absurd p
finite_below (infinite plus) y p f l = ground arith
finite_below (infinite minus) y p f l = absurd p
finite_below (finite s m) y p f l = refl

pub quotient-IsPlus :
    (x y : Float) → IsPlus x → is_finite y ≡ true → lt zero_float y ≡ true → IsPlus (quotient x y)
unfolding quotient div lt is_finite
quotient-IsPlus (finite plus m) (finite plus (suc n)) p f h = IsPlus-round (m * 2 ^ 1074) (suc n)
quotient-IsPlus (infinite plus) (finite plus (suc n)) p f h = tt
quotient-IsPlus nan y p f h = absurd p
quotient-IsPlus (infinite minus) y p f h = absurd p
quotient-IsPlus (finite minus m) y p f h = absurd p
quotient-IsPlus x (finite plus zero) p f h = absurd (ground arith)
quotient-IsPlus x (finite minus n) p f h = absurd (ground arith)
quotient-IsPlus x (infinite s) p f h = absurd (ground arith)
quotient-IsPlus x nan p f h = absurd (ground arith)

pub mul-IsPlus :
    (x y : Float)
    → IsPlus x
    → is_finite x ≡ true
    → IsPlus y
    → is_finite y ≡ true
    → IsPlus (mul x y) × IsDouble (mul x y)
unfolding mul is_finite
mul-IsPlus (finite plus m) (finite plus n) p f q g =
    (IsPlus-round (m * n) (2 ^ 1074), IsDouble-round plus (m * n) (2 ^ 1074) (omega arith))
mul-IsPlus nan y p f q g = absurd p
mul-IsPlus (infinite s) y p f q g = absurd (ground arith)
mul-IsPlus (finite minus m) y p f q g = absurd p
mul-IsPlus (finite plus m) nan p f q g = absurd q
mul-IsPlus (finite plus m) (infinite t) p f q g = absurd (ground arith)
mul-IsPlus (finite plus m) (finite minus n) p f q g = absurd q

pub one_finite : is_finite one_float ≡ true
unfolding is_finite
one_finite = refl
