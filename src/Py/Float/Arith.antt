-- ===== src/Py/Float/Arith.antt =====
-- The arithmetic of `float`. Division by a zero raises, as in Python.
use verdict_risk.Prelude.{ltb, if◌then◌else◌, ℕ, zero, suc, ◌+◌, ◌-◌, ◌*◌, ◌^◌}
use verdict_risk.Py.Except.{Result, zero_division_error, ok, err}
use verdict_risk.Py.Float.Order.{Sign, Float, lt, plus, minus, nan, infinite, finite}
use verdict_risk.Py.Float.Rounding.{round}

abbrev pub flip : Sign → Sign
flip plus = minus
flip minus = plus

-- the sign of a product
abbrev pub times : Sign → Sign → Sign
times plus t = t
times minus t = flip t

-- The exact value `num / den` of a literal, rounded.
unfoldable pub of_ratio : Sign → ℕ → ℕ → Float
of_ratio s num den = round s (num * 2 ^ 1074) den

unfoldable pub neg : Float → Float
neg nan = nan
neg (infinite s) = infinite (flip s)
neg (finite s m) = finite (flip s) m

-- Like signs add up; otherwise the larger magnitude gives the sign, and an exact 0 is +0.
unfoldable pub add_finite : Sign → ℕ → Sign → ℕ → Float
add_finite plus m plus n = round plus (m + n) 1
add_finite minus m minus n = round minus (m + n) 1
add_finite plus m minus n = if ltb m n then round minus (n - m) 1 else round plus (m - n) 1
add_finite minus m plus n = if ltb n m then round minus (m - n) 1 else round plus (n - m) 1

unfoldable pub add : Float → Float → Float
unfolding add_finite
add nan y = nan
add (infinite s) nan = nan
add (infinite plus) (infinite plus) = infinite plus
add (infinite plus) (infinite minus) = nan
add (infinite minus) (infinite plus) = nan
add (infinite minus) (infinite minus) = infinite minus
add (infinite s) (finite t n) = infinite s
add (finite s m) nan = nan
add (finite s m) (infinite t) = infinite t
add (finite s m) (finite t n) = add_finite s m t n

-- `x - y`
unfoldable pub sub : Float → Float → Float
unfolding add neg
sub x y = add x (neg y)

unfoldable pub mul : Float → Float → Float
mul nan y = nan
mul (infinite s) nan = nan
mul (infinite s) (infinite t) = infinite (times s t)
mul (infinite s) (finite t zero) = nan
mul (infinite s) (finite t (suc n)) = infinite (times s t)
mul (finite s m) nan = nan
mul (finite s zero) (infinite t) = nan
mul (finite s (suc m)) (infinite t) = infinite (times s t)
mul (finite s m) (finite t n) = round (times s t) (m * n) (2 ^ 1074)

-- `x / y`
unfoldable pub div : Float → Float → Result Float
div x (finite t zero) = err (zero_division_error "float division by zero")
div nan y = ok nan
div (infinite s) nan = ok nan
div (infinite s) (infinite t) = ok nan
div (infinite s) (finite t (suc n)) = ok (infinite (times s t))
div (finite s m) nan = ok nan
div (finite s m) (infinite t) = ok (finite (times s t) 0)
div (finite s m) (finite t (suc n)) = ok (round (times s t) (m * 2 ^ 1074) (suc n))

-- Python's `min(x, y)` and `max(x, y)` return the first argument unless the second is smaller,
-- or greater.
unfoldable pub py_min : Float → Float → Float
unfolding lt
py_min x y = if lt y x then y else x

unfoldable pub py_max : Float → Float → Float
unfolding lt
py_max x y = if lt x y then y else x
