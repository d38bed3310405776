-- ===== src/Engine/Authority/Session/Breaker.antt =====
-- The breaker of an authority along a session: its invariant and its limits.

use verdict_risk.Engine.Authority.Session.Kept.{Checked, evaluate_with_state-Kept}
use verdict_risk.Engine.Authority.Session.{
  Use, step, session, evaluating, settling, tripping_switch, resetting_switch, resetting_breaker,
  resetting_gate,
}
use verdict_risk.State.{RiskDecision}
use verdict_risk.Py.Time.{Datetime}
use verdict_risk.Py.Number.{Number}
use verdict_risk.Prelude.{◌≡◌, sym, subst, inl, inr, Option, none, some, List, [], ◌∷◌, arith}
use verdict_risk.Engine.Authority.{
  RiskAuthority, evaluate_with_state, map_some, record_resolved_trade,
}
use verdict_risk.Gates.TimedBreaker
use verdict_risk.Gates.TimedBreaker.{TimedCircuitBreaker, record_loss, record_trade, reset, check}
use verdict_risk.Gates.TimedBreaker.Invariant
use verdict_risk.Gates.TimedBreaker.Passes

-- A valid breaker with the limits of the given one.
abbrev pub Runs : TimedCircuitBreaker → TimedCircuitBreaker → Type 0
Runs b0 b =
    Invariant.IsValid b
    × (b.consecutive_loss_threshold ≡ b0.consecutive_loss_threshold)
    × (b.cooldown_hours ≡ b0.cooldown_hours)

abbrev pub Holds : TimedCircuitBreaker → Option TimedCircuitBreaker → Type 0
Holds b0 none = ⊥
Holds b0 (some b) = Runs b0 b

record_trade-Runs :
    (b0 b : TimedCircuitBreaker) (pnl : Number) (at : Option Datetime)
    → Runs b0 b
    → Runs b0 (TimedBreaker.record_trade b pnl at)
unfolding TimedBreaker.record_trade TimedBreaker.record_loss
record_trade-Runs b0 b pnl at h = ground arith

reset-Runs : (b0 b : TimedCircuitBreaker) → Runs b0 b → Runs b0 (TimedBreaker.reset b)
unfolding TimedBreaker.reset
reset-Runs b0 b h = ground arith

check-Runs :
    (b0 b : TimedCircuitBreaker) (d : RiskDecision) (now : Option Datetime)
    → Runs b0 b
    → Runs b0 (TimedBreaker.check b d now).0
check-Runs b0 b d now h = elim (Passes.check-leaves b d now) [
  | inl same ↦ subst (Runs b0) (sym same) h
  | inr cleared ↦ subst (Runs b0) (sym cleared) (reset-Runs b0 b h)
]

Checked-Holds :
    (b0 : TimedCircuitBreaker) (before after : Option TimedCircuitBreaker)
    → Checked before after
    → Holds b0 before
    → Holds b0 after
Checked-Holds b0 before after (inl same) h = subst (Holds b0) (sym same) h
Checked-Holds b0 before after (inr (b, d, now, was, is)) h =
    subst (Holds b0) (sym is) (check-Runs b0 b d now (subst (Holds b0) was h))

map_some-Holds :
    (b0 : TimedCircuitBreaker) (f : TimedCircuitBreaker → TimedCircuitBreaker)
    (o : Option TimedCircuitBreaker)
    → ((b : TimedCircuitBreaker) → Runs b0 b → Runs b0 (f b))
    → Holds b0 o
    → Holds b0 (map_some f o)
map_some-Holds b0 f none keeps h = h
map_some-Holds b0 f (some b) keeps h = keeps b h

step-Holds :
    (b0 : TimedCircuitBreaker) (a : RiskAuthority) (u : Use)
    → Holds b0 a.timed_breaker
    → Holds b0 (step a u).timed_breaker
unfolding step record_resolved_trade
step-Holds b0 a (evaluating ctx trade ns) h =
    Checked-Holds b0 a.timed_breaker (evaluate_with_state a ctx trade ns).authority.timed_breaker
      (evaluate_with_state-Kept a ctx trade ns).3 h
step-Holds b0 a (settling pnl at) h =
    map_some-Holds b0 (λ b. TimedBreaker.record_trade b pnl at) a.timed_breaker
      (λ b. record_trade-Runs b0 b pnl at) h
step-Holds b0 a (tripping_switch at) h = h
step-Holds b0 a resetting_switch h = h
step-Holds b0 a resetting_breaker h =
    map_some-Holds b0 TimedBreaker.reset a.timed_breaker (reset-Runs b0) h
step-Holds b0 a resetting_gate h = h

pub session-Holds :
    (b0 : TimedCircuitBreaker) (a : RiskAuthority) (uses : List Use)
    → Holds b0 a.timed_breaker
    → Holds b0 (session a uses).timed_breaker
unfolding session
session-Holds b0 a [] h = h
session-Holds b0 a (u ∷ uses) h = session-Holds b0 (step a u) uses (step-Holds b0 a u h)
