-- ===== src/Py/Float/NotNan.antt =====
-- Which results are numbers.
use verdict_risk.Prelude.{ℕ, zero, suc, ◌+◌, ◌-◌, ◌*◌, ◌^◌, ◌≡◌, refl, true, false, arith}
use verdict_risk.Py.Float.Order.{
  Sign, Float, is_nan, is_finite, lt, plus, minus, nan, infinite, finite,
}
use verdict_risk.Py.Float.Rounding.{magnitude, pack, round}
use verdict_risk.Py.Float.Arith.{times, neg, add_finite, add, mul, div}
use verdict_risk.Py.Float.Quotient.{quotient}

pub not_nan-round : (s : Sign) (num den : ℕ) → is_nan (round s num den) ≡ false
unfolding is_nan round
not_nan-round s num den = ground arith

nonneg-pack : (m : ℕ) → lt (pack plus m) (finite plus 0) ≡ false
unfolding lt pack
nonneg-pack m = ground arith

pub nonneg-round : (num den : ℕ) → lt (round plus num den) (finite plus 0) ≡ false
unfolding round
nonneg-round num den = nonneg-pack (magnitude num den)

pub not_nan-neg : (x : Float) → is_nan x ≡ false → is_nan (neg x) ≡ false
unfolding is_nan neg
not_nan-neg x h = ground arith

-- A finite number can be added to whatever is not NaN.
pub not_nan-add : (x y : Float) → is_nan x ≡ false → is_finite y ≡ true → is_nan (add x y) ≡ false
unfolding is_nan is_finite add add_finite
not_nan-add nan y h k = ground arith
not_nan-add x nan h k = ground arith
not_nan-add x (infinite t) h k = ground arith
not_nan-add (infinite s) (finite t n) h k = refl
not_nan-add (finite plus m) (finite plus n) h k = not_nan-round plus (m + n) 1
not_nan-add (finite minus m) (finite minus n) h k = not_nan-round minus (m + n) 1
not_nan-add (finite plus m) (finite minus n) h k =
    ground (arith, not_nan-round minus (n - m) 1, not_nan-round plus (m - n) 1)
not_nan-add (finite minus m) (finite plus n) h k =
    ground (arith, not_nan-round minus (m - n) 1, not_nan-round plus (n - m) 1)

pub not_nan-mul : (x y : Float) → is_finite x ≡ true → is_finite y ≡ true → is_nan (mul x y) ≡ false
unfolding is_nan is_finite mul
not_nan-mul nan y h k = ground arith
not_nan-mul (infinite s) y h k = ground arith
not_nan-mul (finite s m) nan h k = ground arith
not_nan-mul (finite s m) (infinite t) h k = ground arith
not_nan-mul (finite s m) (finite t n) h k = not_nan-round (times s t) (m * n) (2 ^ 1074)

pub not_nan-quotient :
    (x y : Float) → is_finite x ≡ true → lt (finite plus 0) y ≡ true → is_nan (quotient x y) ≡ false
unfolding is_nan is_finite quotient div lt
not_nan-quotient nan y h k = ground arith
not_nan-quotient (infinite s) y h k = ground arith
not_nan-quotient (finite s m) nan h k = ground arith
not_nan-quotient (finite s m) (infinite t) h k = refl
not_nan-quotient (finite s m) (finite minus n) h k = ground arith
not_nan-quotient (finite s m) (finite plus zero) h k = ground arith
not_nan-quotient (finite s m) (finite plus (suc n)) h k =
    not_nan-round (times s plus) (m * 2 ^ 1074) (suc n)

pub nan_add : (x : Float) → add nan x ≡ nan
unfolding add
nan_add x = refl
