-- ===== src/Gates/TimedBreaker/Cooldown.antt =====
-- When a tripped breaker lets trades through again.

use verdict_risk.Gates.Verdict.{Verdict, pass, timezone_mode, subtract_same_mode, same_mode_iff}
use verdict_risk.State.{RiskDecision}
use verdict_risk.Py.Time.{Datetime, instant, timedelta_hours}
use verdict_risk.Py.Float.{Float, nan, infinite, finite, is_finite}
use verdict_risk.Py.Except.{Exception, value_error, overflow_error, err, ok}
use verdict_risk.Prelude.{ℤ, ◌-ℤ◌, ◌≤ℤ◌, ◌≡◌, refl, ◌↔◌, true, false, Option, none, some, arith}
use verdict_risk.Gates.TimedBreaker.{TimedCircuitBreaker, reset, check_tripped, cooled_down, check}

-- Tripped at one time and asked at another in the same time zone mode, with a cooldown that is us
-- microseconds: the breaker passes and is cleared exactly when at least that time has gone by.
pub check_iff :
    (b : TimedCircuitBreaker) (d : RiskDecision) (t now : Datetime) (us : ℤ)
    → b.tripped ≡ true
    → b.tripped_at ≡ some t
    → timezone_mode now ≡ timezone_mode t
    → timedelta_hours b.cooldown_hours ≡ ok us
    → (check b d (some now) ≡ (reset b, pass d)) ↔ (us ≤ℤ (instant now -ℤ instant t))
unfolding check check_tripped cooled_down
check_iff b d t now us h k m c =
    ground (arith, subtract_same_mode now t m, same_mode_iff (timezone_mode now) (timezone_mode t))

-- A breaker that tripped with no time never lets a trade through by itself: at any time, or with
-- none given, it rejects the decision and stays tripped.
pub check_no_time :
    (b : TimedCircuitBreaker) (d : RiskDecision) (now : Option Datetime)
    → b.tripped ≡ true
    → b.tripped_at ≡ none
    → (check b d now ≡ (b, ok (check_tripped b d))) × ((check_tripped b d).1 ≡ false)
unfolding check check_tripped
check_no_time b d now h k = ground arith

abbrev pub Raises : Verdict → Type 0
Raises (ok answer) = ⊥
Raises (err e) = Unit

timedelta_hours-err :
    (h : Float) → is_finite h ≡ false → (e : Exception) × (timedelta_hours h ≡ err e)
unfolding timedelta_hours is_finite
timedelta_hours-err nan h = (value_error "cannot convert float NaN to integer", refl)
timedelta_hours-err (infinite s) h =
    (overflow_error "cannot convert float infinity to integer", refl)
timedelta_hours-err (finite s m) h = absurd (ground arith)

check-err :
    (b : TimedCircuitBreaker) (d : RiskDecision) (t now : Datetime) (e : Exception)
    → b.tripped ≡ true
    → b.tripped_at ≡ some t
    → timezone_mode now ≡ timezone_mode t
    → timedelta_hours b.cooldown_hours ≡ err e
    → check b d (some now) ≡ (b, err e)
unfolding check cooled_down
check-err b d t now e h k m c =
    ground (arith, subtract_same_mode now t m, same_mode_iff (timezone_mode now) (timezone_mode t))

-- A tripped breaker with a cooldown that is NaN or infinite, asked in the time zone mode of its
-- trip, raises and stays as it is.
pub check_bad_cooldown :
    (b : TimedCircuitBreaker) (d : RiskDecision) (t now : Datetime)
    → b.tripped ≡ true
    → b.tripped_at ≡ some t
    → timezone_mode now ≡ timezone_mode t
    → is_finite b.cooldown_hours ≡ false
    → Raises (check b d (some now)).1 × ((check b d (some now)).0 ≡ b)
check_bad_cooldown b d t now h k m c =
    let (e, raised) = timedelta_hours-err b.cooldown_hours c in
    rw (check-err b d t now e h k m raised) (tt, refl)
