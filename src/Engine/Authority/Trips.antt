-- ===== src/Engine/Authority/Trips.antt =====
-- When the trip callback is called.

use verdict_risk.Engine.Chain.Approval.{new_decision-finite, new_decision-err}
use verdict_risk.Gates.Pass.{approval}
use verdict_risk.Gates.Verdict.{Verdict}
use verdict_risk.State.{RiskContext, RiskDecision}
use verdict_risk.Py.Float.{is_finite}
use verdict_risk.Py.Except.{ok, err}
use verdict_risk.Prelude.{
  Bool-cases, Option-cases, ℕ, String, ◌≡◌, refl, subst, inl, inr, true, false, Option, some, List,
  [], ◌∷◌, ◌++◌, arith,
}
use verdict_risk.Gates.KillSwitch
use verdict_risk.Gates.TimedBreaker
use verdict_risk.Gates.LossGate
use verdict_risk.Engine.Chain.{Trade}
use verdict_risk.Engine.Authority.Session.{
  Use, step, session_calls, evaluating, settling, tripping_switch, resetting_switch,
  resetting_breaker, resetting_gate,
}
use verdict_risk.Engine.Authority.{
  RiskAuthority, Evaluation, same_reason, maybe_fire_trip, delegate, pass_loss_gate,
  after_timed_breaker, pass_timed_breaker, pass_kill_switch, evaluate_with_state,
  record_resolved_trade,
}

-- The calls of one evaluation, from the last reason that was reported to the one that is now: none,
-- or one, with another reason.
abbrev pub Fired : Option String → List RiskDecision → Option String → Type 0
Fired before [] after = after ≡ before
Fired before (d ∷ []) after =
    (same_reason d.reason_code before ≡ false) × (after ≡ some d.reason_code)
Fired before (d ∷ e ∷ ds) after = ⊥

abbrev FiredBy : RiskAuthority → Evaluation → Type 0
FiredBy a e = Fired a.last_trip_reason e.calls e.authority.last_trip_reason

maybe_fire_trip-Fired : (a : RiskAuthority) (d : RiskDecision) → FiredBy a (maybe_fire_trip a d)
unfolding maybe_fire_trip
maybe_fire_trip-Fired a d = ground arith

pass_loss_gate-Fired :
    (a : RiskAuthority) (ctx : RiskContext) (trade : Trade) (ns : ℕ) (d : RiskDecision)
    → FiredBy a (pass_loss_gate a ctx trade ns d)
unfolding pass_loss_gate delegate
pass_loss_gate-Fired a ctx trade ns d = elim (Option-cases a.consecutive_loss_gate) [
  | inl absent ↦ ground arith
  | inr (gate, present) ↦ ground (arith, maybe_fire_trip-Fired a (LossGate.check gate d).0)
]

after_timed_breaker-Fired :
    (a : RiskAuthority) (ctx : RiskContext) (trade : Trade) (ns : ℕ) (v : Verdict)
    → FiredBy a (after_timed_breaker a ctx trade ns v)
unfolding after_timed_breaker
after_timed_breaker-Fired a ctx trade ns (err e) = refl
after_timed_breaker-Fired a ctx trade ns (ok (d, true)) = pass_loss_gate-Fired a ctx trade ns d
after_timed_breaker-Fired a ctx trade ns (ok (d, false)) = maybe_fire_trip-Fired a d

pass_timed_breaker-Fired :
    (a : RiskAuthority) (ctx : RiskContext) (trade : Trade) (ns : ℕ) (d : RiskDecision)
    → FiredBy a (pass_timed_breaker a ctx trade ns d)
unfolding pass_timed_breaker
pass_timed_breaker-Fired a ctx trade ns d = elim (Option-cases a.timed_breaker) [
  | inl absent ↦ ground (arith, pass_loss_gate-Fired a ctx trade ns d)
  | inr (b, present) ↦
      let checked = TimedBreaker.check b d trade.current_time in
      let a' = record a { timed_breaker = some checked.0 } in
      ground (arith, after_timed_breaker-Fired a' ctx trade ns checked.1)
]

pass_kill_switch-Fired :
    (a : RiskAuthority) (ctx : RiskContext) (trade : Trade) (ns : ℕ) (d : RiskDecision)
    → FiredBy a (pass_kill_switch a ctx trade ns d)
unfolding pass_kill_switch KillSwitch.check
pass_kill_switch-Fired a ctx trade ns d = elim (Option-cases a.kill_switch) [
  | inl absent ↦ ground (arith, pass_timed_breaker-Fired a ctx trade ns d)
  | inr (switch, present) ↦ ground (
    arith,
    pass_timed_breaker-Fired a ctx trade ns d,
    maybe_fire_trip-Fired a (KillSwitch.check switch d).0,
  )
]

evaluate_with_state-Fired :
    (a : RiskAuthority) (ctx : RiskContext) (trade : Trade) (ns : ℕ)
    → FiredBy a (evaluate_with_state a ctx trade ns)
unfolding evaluate_with_state
evaluate_with_state-Fired a ctx trade ns = elim (Bool-cases (is_finite trade.proposed_cost)) [
  | inl good ↦ ground (
    arith,
    new_decision-finite trade.proposed_cost good,
    pass_kill_switch-Fired a ctx trade ns (approval trade.proposed_cost),
  )
  | inr bad ↦ ground (arith, new_decision-err trade.proposed_cost bad)
]

-- No two neighbours have the same reason, and the first has not the reason `last`.
abbrev pub Alternates : Option String → List RiskDecision → Type 0
Alternates last [] = Unit
Alternates last (d ∷ ds) =
    (same_reason d.reason_code last ≡ false) × Alternates (some d.reason_code) ds

Alternates-append :
    (before after : Option String) (calls rest : List RiskDecision)
    → Fired before calls after
    → Alternates after rest
    → Alternates before (calls ++ rest)
Alternates-append before after [] rest f h = subst (λ l. Alternates l rest) f h
Alternates-append before after (d ∷ []) rest f h = (f.0, subst (λ l. Alternates l rest) f.1 h)
Alternates-append before after (d ∷ e ∷ ds) rest f h = absurd f

-- Along any session of evaluations, settled trades and operator actions on the gates the callback
-- is never called twice in a row for the same reason, nor first for the reason that was reported
-- last.
pub session_calls-Alternates :
    (a : RiskAuthority) (uses : List Use) → Alternates a.last_trip_reason (session_calls a uses)
unfolding session_calls step record_resolved_trade
session_calls-Alternates a [] = tt
session_calls-Alternates a (evaluating ctx trade ns ∷ uses) =
    let e = evaluate_with_state a ctx trade ns in
    Alternates-append a.last_trip_reason e.authority.last_trip_reason e.calls
      (session_calls e.authority uses) (evaluate_with_state-Fired a ctx trade ns)
      (session_calls-Alternates e.authority uses)
session_calls-Alternates a (settling pnl at ∷ uses) =
    session_calls-Alternates (step a (settling pnl at)) uses
session_calls-Alternates a (tripping_switch at ∷ uses) =
    session_calls-Alternates (step a (tripping_switch at)) uses
session_calls-Alternates a (resetting_switch ∷ uses) =
    session_calls-Alternates (step a resetting_switch) uses
session_calls-Alternates a (resetting_breaker ∷ uses) =
    session_calls-Alternates (step a resetting_breaker) uses
session_calls-Alternates a (resetting_gate ∷ uses) =
    session_calls-Alternates (step a resetting_gate) uses
