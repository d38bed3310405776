-- ===== src/Py/Float/Tests.antt =====
-- Runs of the float operations against values that Python prints.
use verdict_risk.Prelude.{◌^◌, ◌≡◌, refl}
use verdict_risk.Py.Except.{ok}
use verdict_risk.Py.Float.{plus, minus, infinite, magnitude, round, add, mul, div, of_ratio}

-- 0.1 + 0.2 == 0.30000000000000004, that is 5404319552844596 / 2^54
sum_of_tenths :
    add (of_ratio plus 1 10) (of_ratio plus 2 10) ≡ of_ratio plus 5404319552844596 (2 ^ 54)
unfolding add of_ratio round magnitude
sum_of_tenths = refl

-- 1 / 3
third : div (of_ratio plus 1 1) (of_ratio plus 3 1) ≡ ok (of_ratio plus 6004799503160661 (2 ^ 54))
unfolding div of_ratio round magnitude
third = refl

-- 1e308 * 10 == inf
overflows : mul (of_ratio plus (10 ^ 308) 1) (of_ratio minus 10 1) ≡ infinite minus
unfolding mul of_ratio round magnitude
overflows = refl
