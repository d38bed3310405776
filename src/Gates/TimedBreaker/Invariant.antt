-- ===== src/Gates/TimedBreaker/Invariant.antt =====
-- The streak of a breaker, and the moment at which it trips.

use verdict_risk.Gates.Verdict.{timezone_mode, same_mode}
use verdict_risk.State.{RiskDecision}
use verdict_risk.Py.Time.{Datetime}
use verdict_risk.Py.Number.{Number}
use verdict_risk.Py.Float.{Float}
use verdict_risk.Py.Except.{Result, ok, err}
use verdict_risk.Prelude.{
  if◌then◌else◌, Bool-cases, ℤ, ◌≤◌, ◌<◌, ◌≡◌, sym, subst, inl, inr, Bool, true, false, Option,
  none, some, List, [], ◌∷◌, arith,
}
use verdict_risk.Gates.TimedBreaker.{
  TimedCircuitBreaker, init, record_loss, record_trade, reset, check_tripped, cooled_down, settle,
  check_cooldown, check,
}

-- A clear breaker has fewer losses in a row than the threshold, and no time of a trip; a tripped one
-- has just as many.
abbrev pub Fits : Bool → TimedCircuitBreaker → Type 0
Fits true b = b.loss_streak ≡ b.consecutive_loss_threshold
Fits false b = (b.loss_streak < b.consecutive_loss_threshold) × (b.tripped_at ≡ none)

abbrev pub IsValid : TimedCircuitBreaker → Type 0
IsValid b = (1 ≤ b.consecutive_loss_threshold) × Fits b.tripped b

-- A new breaker is valid.
pub init-IsValid :
    (threshold : ℤ) (cooldown : Float) (b : TimedCircuitBreaker)
    → init threshold cooldown ≡ ok b
    → IsValid b
unfolding init
init-IsValid threshold cooldown b e = ground arith

-- A recorded trade and a reset keep the breaker valid.
record_trade-IsValid :
    (b : TimedCircuitBreaker) (pnl : Number) (at : Option Datetime)
    → IsValid b
    → IsValid (record_trade b pnl at)
unfolding record_trade record_loss
record_trade-IsValid b pnl at v = ground arith

reset-IsValid : (b : TimedCircuitBreaker) → IsValid b → IsValid (reset b)
unfolding reset
reset-IsValid b v = ground arith

settle-IsValid :
    (b : TimedCircuitBreaker) (d : RiskDecision) (r : Result Bool)
    → IsValid b
    → IsValid (settle b d r).0
unfolding settle
settle-IsValid b d (err e) v = v
settle-IsValid b d (ok true) v = reset-IsValid b v
settle-IsValid b d (ok false) v = v

check_cooldown-IsValid :
    (b : TimedCircuitBreaker) (d : RiskDecision) (t now : Option Datetime)
    → IsValid b
    → IsValid (check_cooldown b d t now).0
unfolding check_cooldown
check_cooldown-IsValid b d none now v = v
check_cooldown-IsValid b d (some t) none v = v
check_cooldown-IsValid b d (some t) (some now) v =
    elim (Bool-cases (same_mode (timezone_mode now) (timezone_mode t))) [
      | inl same ↦ rw same (settle-IsValid b d (cooled_down b t now) v)
      | inr mixed ↦ rw mixed v
    ]

-- A check keeps it valid, whatever it answers.
check-IsValid :
    (b : TimedCircuitBreaker) (d : RiskDecision) (now : Option Datetime)
    → IsValid b
    → IsValid (check b d now).0
unfolding check
check-IsValid b d now v = elim (Bool-cases b.tripped) [
  | inl tripped ↦
      subst
        (λ t.
          IsValid
            (if t then check_cooldown b d b.tripped_at now else (b, ok (check_tripped b d))).0)
        (sym tripped) (check_cooldown-IsValid b d b.tripped_at now v)
  | inr clear ↦
      subst
        (λ t.
          IsValid
            (if t then check_cooldown b d b.tripped_at now else (b, ok (check_tripped b d))).0)
        (sym clear) v
]

-- What is done with a breaker.
pub data Event : Type 0 where
  recording : Number → Option Datetime → Event
  checking : RiskDecision → Option Datetime → Event
  resetting : Event

pub run : TimedCircuitBreaker → List Event → TimedCircuitBreaker
run b [] = b
run b (recording pnl at ∷ events) = run (record_trade b pnl at) events
run b (checking d now ∷ events) = run (check b d now).0 events
run b (resetting ∷ events) = run (reset b) events

steps-IsValid : (b : TimedCircuitBreaker) (events : List Event) → IsValid b → IsValid (run b events)
unfolding run
steps-IsValid b [] v = v
steps-IsValid b (recording pnl at ∷ events) v =
    steps-IsValid (record_trade b pnl at) events (record_trade-IsValid b pnl at v)
steps-IsValid b (checking d now ∷ events) v =
    steps-IsValid (check b d now).0 events (check-IsValid b d now v)
steps-IsValid b (resetting ∷ events) v = steps-IsValid (reset b) events (reset-IsValid b v)

-- After any trades, checks and resets of a breaker that its constructor gave: if it is clear, it
-- has fewer losses in a row than its threshold and no time of a trip; if it is tripped, it has
-- exactly as many as its threshold; and the threshold is at least 1.
pub run-IsValid :
    (threshold : ℤ) (cooldown : Float) (b : TimedCircuitBreaker) (events : List Event)
    → init threshold cooldown ≡ ok b
    → IsValid (run b events)
run-IsValid threshold cooldown b events e =
    steps-IsValid b events (init-IsValid threshold cooldown b e)
