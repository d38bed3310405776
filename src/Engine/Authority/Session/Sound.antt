-- ===== src/Engine/Authority/Session/Sound.antt =====
-- What a snapshot asks of the gates, along a session.

use verdict_risk.Engine.Authority.Snapshot.{IsSoundBreaker, IsSoundGate}
use verdict_risk.Engine.Authority.Session.Kept.{Checked, evaluate_with_state-Kept}
use verdict_risk.Engine.Authority.Session.{
  Use, step, session, evaluating, settling, tripping_switch, resetting_switch, resetting_breaker,
  resetting_gate,
}
use verdict_risk.Py.Time.{Datetime}
use verdict_risk.Py.Number.{Number, is_negative}
use verdict_risk.Prelude.{sym, subst, inl, inr, Option, none, some, List, [], ◌∷◌, ◌++◌, arith}
use verdict_risk.Engine.Authority.{
  RiskAuthority, evaluate_with_state, map_some, record_resolved_trade,
}
use verdict_risk.Gates.TimedBreaker
use verdict_risk.Gates.TimedBreaker.{TimedCircuitBreaker, record_loss, record_trade, reset}
use verdict_risk.Gates.TimedBreaker.Passes
use verdict_risk.Gates.LossGate
use verdict_risk.Gates.LossGate.{ConsecutiveLossGate}
use verdict_risk.Gates.LossGate.Window

Checked-IsSoundBreaker :
    (before after : Option TimedCircuitBreaker)
    → Checked before after
    → IsSoundBreaker before
    → IsSoundBreaker after
unfolding TimedBreaker.reset
Checked-IsSoundBreaker before after (inl same) h = subst IsSoundBreaker (sym same) h
Checked-IsSoundBreaker before after (inr (b, d, now, was, is)) h =
    let sound = subst IsSoundBreaker was h in
    subst IsSoundBreaker (sym is) (elim (Passes.check-leaves b d now) [
      | inl same ↦ subst (λ c. IsSoundBreaker (some c)) (sym same) sound
      | inr cleared ↦ subst (λ c. IsSoundBreaker (some c)) (sym cleared) sound
    ])

record_trade-IsSoundBreaker :
    (o : Option TimedCircuitBreaker) (pnl : Number) (at : Option Datetime)
    → IsSoundBreaker o
    → IsSoundBreaker (map_some (λ b. TimedBreaker.record_trade b pnl at) o)
unfolding TimedBreaker.record_trade TimedBreaker.record_loss
record_trade-IsSoundBreaker none pnl at h = tt
record_trade-IsSoundBreaker (some b) pnl at h = ground arith

reset-IsSoundBreaker :
    (o : Option TimedCircuitBreaker)
    → IsSoundBreaker o
    → IsSoundBreaker (map_some TimedBreaker.reset o)
unfolding TimedBreaker.reset
reset-IsSoundBreaker none h = tt
reset-IsSoundBreaker (some b) h = h

record_trade-IsSoundGate :
    (o : Option ConsecutiveLossGate) (pnl : Number)
    → IsSoundGate o
    → IsSoundGate (map_some (λ g. LossGate.record_trade g pnl) o)
unfolding LossGate.record_trade
record_trade-IsSoundGate none pnl h = tt
record_trade-IsSoundGate (some g) pnl h =
    let longer = g.history ++ (is_negative pnl ∷ []) in
    ground (arith, Window.length-last_trades g.window_trades longer)

reset-IsSoundGate :
    (o : Option ConsecutiveLossGate) → IsSoundGate o → IsSoundGate (map_some LossGate.reset o)
unfolding LossGate.reset
reset-IsSoundGate none h = tt
reset-IsSoundGate (some g) h = (h.0, h.1, omega arith)

-- Both gates can be saved.
abbrev pub IsSound : RiskAuthority → Type 0
IsSound a = IsSoundBreaker a.timed_breaker × IsSoundGate a.consecutive_loss_gate

step-IsSound : (a : RiskAuthority) (u : Use) → IsSound a → IsSound (step a u)
unfolding step record_resolved_trade
step-IsSound a (evaluating ctx trade ns) h =
    let kept = evaluate_with_state-Kept a ctx trade ns in
    let after = (evaluate_with_state a ctx trade ns).authority in
    (
      Checked-IsSoundBreaker a.timed_breaker after.timed_breaker kept.3 h.0,
      subst IsSoundGate (sym kept.1) h.1,
    )
step-IsSound a (settling pnl at) h = (
  record_trade-IsSoundBreaker a.timed_breaker pnl at h.0,
  record_trade-IsSoundGate a.consecutive_loss_gate pnl h.1,
)
step-IsSound a (tripping_switch at) h = h
step-IsSound a resetting_switch h = h
step-IsSound a resetting_breaker h = (reset-IsSoundBreaker a.timed_breaker h.0, h.1)
step-IsSound a resetting_gate h = (h.0, reset-IsSoundGate a.consecutive_loss_gate h.1)

pub session-IsSound : (a : RiskAuthority) (uses : List Use) → IsSound a → IsSound (session a uses)
unfolding session
session-IsSound a [] h = h
session-IsSound a (u ∷ uses) h = session-IsSound (step a u) uses (step-IsSound a u h)
