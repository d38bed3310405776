-- ===== src/Py/Time/Tests.antt =====
-- Runs of the date functions against what Python answers.
use verdict_risk.Py.Float.{plus, minus, magnitude, round, of_ratio}
use verdict_risk.Prelude.{pos, negsuc, ◌≡◌, refl}
use verdict_risk.Py.Except.{ok}
use verdict_risk.Py.Time.{total_seconds, timedelta_hours}

hour_and_half : timedelta_hours (of_ratio plus 3 2) ≡ ok (pos 5_400_000_000)
unfolding timedelta_hours of_ratio round magnitude
hour_and_half = refl

-- timedelta(hours=0.1) is 6 minutes, although 0.1 is no double.
tenth_of_hour : timedelta_hours (of_ratio plus 1 10) ≡ ok (pos 360_000_000)
unfolding timedelta_hours of_ratio round magnitude
tenth_of_hour = refl

seconds_of_delta : total_seconds (negsuc 1_499_999) ≡ of_ratio minus 3 2
unfolding total_seconds of_ratio round magnitude
seconds_of_delta = refl
