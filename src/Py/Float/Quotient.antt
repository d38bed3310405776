-- ===== src/Py/Float/Quotient.antt =====
-- Division by a number that is not zero returns.
use verdict_risk.Prelude.{zero, suc, ◌≡◌, refl, true, false, arith}
use verdict_risk.Py.Except.{ok, err}
use verdict_risk.Py.Float.Order.{
  Float, is_nan, lt, le, lt-eq-not-le, plus, minus, nan, infinite, finite,
}
use verdict_risk.Py.Float.Arith.{div}

-- The quotient where the division returns.
unfoldable pub quotient : Float → Float → Float
quotient x y = elim (div x y) [ ok q ↦ q | err e ↦ nan ]

pub div_pos : (x y : Float) → lt (finite plus 0) y ≡ true → div x y ≡ ok (quotient x y)
unfolding quotient div lt
div_pos x nan h = ground arith
div_pos x (infinite minus) h = ground arith
div_pos x (finite minus m) h = ground arith
div_pos x (finite plus zero) h = ground arith
div_pos nan (infinite plus) h = refl
div_pos (infinite s) (infinite plus) h = refl
div_pos (finite s m) (infinite plus) h = refl
div_pos nan (finite plus (suc n)) h = refl
div_pos (infinite s) (finite plus (suc n)) h = refl
div_pos (finite s m) (finite plus (suc n)) h = refl

-- The same for a divisor that a gate has tested.
pub div_returns :
    (x y : Float) → is_nan y ≡ false → le y (finite plus 0) ≡ false → div x y ≡ ok (quotient x y)
unfolding is_nan
div_returns x y p q = div_pos x y (ground (arith, lt-eq-not-le (finite plus 0) y refl p))
