-- ===== src/Py/Float.antt =====
-- Python's `float`: IEEE 754 binary64. A finite value is a sign and a magnitude that counts units of
-- 2^-1074, the smallest subnormal, so every double is one exactly; each operation rounds the exact
-- result to the nearest double, ties to even.
pub mod Order
pub mod Rounding
pub mod Arith
pub mod Quotient
pub mod NotNan
pub mod Doubles
pub mod Plus
mod Tests
pub use Order.{Sign, plus, minus, Float, nan, infinite, finite}
pub use Order.{is_finite-eq, is_nan_of_finite, lt-eq-not-le, le_of_lt, lt-le_trans, le-lt_trans}
pub use Order.{
  lt_nan, nan_lt, nan_le, lt-not_le, le-not_lt, le_refl, le_trans, not_nan_of_le, not_nan_of_lt,
}
unfoldable pub use Order.{is_nan, is_inf, is_finite, lt, le, eq}
unfoldable pub use Rounding.{magnitude, nearest, round}
pub use NotNan.{
  nonneg-round, nan_add, not_nan-round, not_nan-neg, not_nan-add, not_nan-mul, not_nan-quotient,
}
pub use Doubles.{
  IsDouble, IsDouble-round, IsDouble-quotient, round_exact, round_mono, quotient_mono, mul_mono,
  add_mono,
}
pub use Quotient.{div_pos, div_returns}
unfoldable pub use Quotient.{quotient}
unfoldable pub use Arith.{neg, add, sub, mul, div, of_ratio, py_min, py_max}
use verdict_risk.Prelude.{◌^◌}

abbrev pub zero_float : Float
zero_float = finite plus 0

abbrev pub one_float : Float
one_float = finite plus (2 ^ 1074)
