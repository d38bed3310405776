-- ===== src/Py/Format/Tests.antt =====
-- Runs of the formatting functions against what Python prints.

use verdict_risk.Py.Float.{plus, minus, finite, magnitude, round, of_ratio}
use verdict_risk.Prelude.{negsuc, ◌^◌, ◌≡◌, refl}
use verdict_risk.Py.Format.{str_int, repr, percent}

repr_tenth : repr (of_ratio plus 1 10) ≡ "0.1"
unfolding repr of_ratio round magnitude
repr_tenth = refl

repr_third : repr (of_ratio minus 1 3) ≡ "-0.3333333333333333"
unfolding repr of_ratio round magnitude
repr_third = refl

repr_large : repr (of_ratio plus (10 ^ 23) 1) ≡ "1e+23"
unfolding repr of_ratio round magnitude
repr_large = refl

repr_whole : repr (of_ratio plus 2500 1) ≡ "2500.0"
unfolding repr of_ratio round magnitude
repr_whole = refl

repr_tiny : repr (finite plus 1) ≡ "5e-324"
unfolding repr
repr_tiny = refl

-- A power of two, whose neighbours are not evenly spaced.
repr_power : repr (of_ratio plus 1 (2 ^ 44)) ≡ "5.684341886080802e-14"
unfolding repr of_ratio round magnitude
repr_power = refl

percent_rounds : percent (of_ratio minus 12345 100000) ≡ "-12.35%"
unfolding percent of_ratio round magnitude
percent_rounds = refl

str_negative : str_int (negsuc 41) ≡ "-42"
unfolding str_int
str_negative = refl
