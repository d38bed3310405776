-- ===== src/Gates/TimedBreaker.antt =====
-- `TimedCircuitBreaker`: a halt for some hours after losses in a row.
pub mod Invariant
pub mod Streak
pub mod Cooldown
pub mod Passes
use verdict_risk.Prelude.{
  leb, if◌then◌else◌, ℤ, pos_part, ltb_ℤ, leb_ℤ, pos, ℕ, ◌+◌, Bool, true, false, not, Option, none,
  some, [], ◌∷◌,
}
use verdict_risk.Py.Except.{Result, ◌>>=◌, ◌>>◌, raise_if, value_error, ok, err}
use verdict_risk.Py.Float.{Float, le, zero_float}
use verdict_risk.Py.Time.{Datetime, subtract, timedelta_hours}
use verdict_risk.Py.Format.{join, str_nat, repr}
use verdict_risk.Py.Number.{Number, is_finite_number, is_negative}
use verdict_risk.State.{RiskDecision, TimedCircuitBreakerState, timed_state_init}
use verdict_risk.Gates.Verdict.{Verdict, rejected, reject, pass, timezone_mode, same_mode}

pub record TimedCircuitBreaker : Type 0 where
  pub consecutive_loss_threshold : ℕ
  pub cooldown_hours : Float
  pub loss_streak : ℕ
  pub tripped : Bool
  pub tripped_at : Option Datetime

-- `__init__`
unfoldable pub init : ℤ → Float → Result TimedCircuitBreaker
init threshold cooldown = do
  raise_if (ltb_ℤ threshold (pos 1)) (value_error "consecutive_loss_threshold must be >= 1")
  raise_if (le cooldown zero_float) (value_error "cooldown_hours must be > 0")
  ok (record {
    consecutive_loss_threshold = pos_part threshold;
    cooldown_hours = cooldown;
    loss_streak = 0;
    tripped = false;
    tripped_at = none;
  })

-- A loss advances the streak and may trip.
unfoldable pub record_loss : TimedCircuitBreaker → Option Datetime → TimedCircuitBreaker
record_loss breaker at =
    let streak = breaker.loss_streak + 1 in
    if leb breaker.consecutive_loss_threshold streak
    then record breaker { loss_streak = streak; tripped = true; tripped_at = at }
    else record breaker { loss_streak = streak }

-- `record`
unfoldable pub record_trade : TimedCircuitBreaker → Number → Option Datetime → TimedCircuitBreaker
unfolding record_loss is_finite_number
record_trade breaker pnl at =
    if not (is_finite_number pnl)
    then breaker
    else if breaker.tripped
    then breaker
    else if is_negative pnl
    then record_loss breaker at
    else record breaker { loss_streak = 0 }

unfoldable pub reset : TimedCircuitBreaker → TimedCircuitBreaker
reset breaker = record breaker { loss_streak = 0; tripped = false; tripped_at = none }

-- The last test of `check`.
unfoldable pub check_tripped : TimedCircuitBreaker → RiskDecision → RiskDecision × Bool
check_tripped breaker decision =
    if breaker.tripped
    then rejected decision (
        join (
          "ERR_TIMED_CIRCUIT_BREAKER: tripped after "
          ∷ str_nat breaker.loss_streak
          ∷ " consecutive losses, cooldown "
          ∷ repr breaker.cooldown_hours
          ∷ "h"
          ∷ []))
    else (decision, true)

-- `now - tripped_at >= timedelta(hours=cooldown_hours)`
unfoldable pub cooled_down : TimedCircuitBreaker → Datetime → Datetime → Result Bool
cooled_down breaker tripped_at now = do
  elapsed ← subtract now tripped_at
  cooldown ← timedelta_hours breaker.cooldown_hours
  ok (leb_ℤ cooldown elapsed)

-- A cooldown that is over clears the breaker.
unfoldable pub settle :
    TimedCircuitBreaker → RiskDecision → Result Bool → TimedCircuitBreaker × Verdict
settle breaker decision (err e) = (breaker, err e)
settle breaker decision (ok true) = (reset breaker, pass decision)
settle breaker decision (ok false) = (breaker, ok (check_tripped breaker decision))

-- `check` of a tripped breaker, by the time of the trip and the current time
unfoldable pub check_cooldown :
    TimedCircuitBreaker
    → RiskDecision
    → Option Datetime
    → Option Datetime
    → TimedCircuitBreaker × Verdict
unfolding settle
check_cooldown breaker decision none now = (breaker, ok (check_tripped breaker decision))
check_cooldown breaker decision (some tripped_at) none =
    (breaker, ok (check_tripped breaker decision))
check_cooldown breaker decision (some tripped_at) (some now) =
    if not (same_mode (timezone_mode now) (timezone_mode tripped_at))
    then (breaker, reject decision "ERR_INVALID_TIMEZONE_MIXED")
    else settle breaker decision (cooled_down breaker tripped_at now)

-- `check`: the breaker afterwards, and the verdict
unfoldable pub check :
    TimedCircuitBreaker → RiskDecision → Option Datetime → TimedCircuitBreaker × Verdict
unfolding check_cooldown
check breaker decision now =
    if breaker.tripped
    then check_cooldown breaker decision breaker.tripped_at now
    else (breaker, ok (check_tripped breaker decision))

unfoldable pub to_state : TimedCircuitBreaker → Result TimedCircuitBreakerState
unfolding timed_state_init
to_state breaker =
    timed_state_init (pos breaker.consecutive_loss_threshold) breaker.cooldown_hours
      (pos breaker.loss_streak) breaker.tripped breaker.tripped_at

unfoldable pub from_state : TimedCircuitBreakerState → Result TimedCircuitBreaker
unfolding init
from_state state = do
  breaker ← init (pos state.consecutive_loss_threshold) state.cooldown_hours
  ok (record breaker {
    loss_streak = state.loss_streak;
    tripped = state.tripped;
    tripped_at = state.tripped_at;
  })
