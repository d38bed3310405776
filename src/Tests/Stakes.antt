-- ===== src/Tests/Stakes.antt =====
-- Runs of `kelly_fraction`, and its theorems at concrete inputs.

use verdict_risk.Py.Float.{
  plus, Float, finite, is_nan, is_inf, is_finite, lt, le, magnitude, round, sub, mul, div, of_ratio,
  py_min, py_max, zero_float, one_float,
}
use verdict_risk.Py.Except.{ok}
use verdict_risk.Prelude.{◌≡◌, refl, true, arith}
use verdict_risk.Kelly.{require_probability, scale_stake, kelly_stake, kelly_fraction}
use verdict_risk.Kelly.Fraction.{HasOdds, kelly_fraction-le}
use verdict_risk.Kelly.Bounds.{kelly_fraction_bounds, kelly_fraction_overflow}
use verdict_risk.Tests.Data.{half, quarter}

-- kelly_fraction(0.75, 0.5): odds 1, edge 0.5, and the quarter of 0.5
kelly_of_quarter : kelly_fraction (of_ratio plus 3 4) half quarter ≡ ok (of_ratio plus 1 8)
unfolding kelly_fraction require_probability kelly_stake scale_stake div sub mul of_ratio round
    magnitude py_min py_max lt le is_nan is_inf
kelly_of_quarter = refl

kelly_fraction_bounds_example :
    (le zero_float (of_ratio plus 1 8) ≡ true) × (le (of_ratio plus 1 8) one_float ≡ true)
kelly_fraction_bounds_example =
    kelly_fraction_bounds (of_ratio plus 3 4) half quarter (of_ratio plus 1 8) kelly_of_quarter

-- The smallest double, as a price.
abbrev tiny : Float
tiny = finite plus 1

kelly_fraction_overflow_example : kelly_fraction half tiny quarter ≡ ok one_float
unfolding lt le div sub round magnitude
kelly_fraction_overflow_example =
    kelly_fraction_overflow half tiny quarter (refl, refl) (refl, refl) (refl, refl) refl

-- A price of a half has odds of 1.
half_odds : HasOdds half
unfolding div sub round magnitude is_finite
half_odds = (one_float, refl, refl)

kelly_fraction-le_example : le (of_ratio plus 1 8) quarter ≡ true
kelly_fraction-le_example =
    kelly_fraction-le (of_ratio plus 3 4) half quarter (of_ratio plus 1 8)
      ((1, 1072, omega arith, refl), omega arith) half_odds kelly_of_quarter
