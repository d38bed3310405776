-- ===== src/Engine/Authority/Session/Quiet.antt =====
-- Authorities with a callback that leaves decisions alone, beside those with none.

use verdict_risk.Engine.Authority.Session.Gates.{session-on_trip}
use verdict_risk.Engine.Authority.Session.{
  Use, step, session, session_answers, evaluating, settling, tripping_switch, resetting_switch,
  resetting_breaker, resetting_gate,
}
use verdict_risk.Engine.Chain.Approval.{new_decision-finite, new_decision-err}
use verdict_risk.Engine.Chain.{Trade}
use verdict_risk.Gates.Pass.{approval}
use verdict_risk.Gates.Verdict.{Verdict}
use verdict_risk.State.{RiskContext, RiskDecision}
use verdict_risk.Py.Float.{is_finite}
use verdict_risk.Py.Except.{err, ok}
use verdict_risk.Prelude.{
  Bool-cases, Option-cases, ℕ, ◌≡◌, refl, sym, ap, ◌∙◌, subst, inl, inr, true, false, Option, none,
  some, List, [], ◌∷◌, arith,
}
use verdict_risk.Engine.Authority.{
  RiskAuthority, Evaluation, maybe_fire_trip, delegate, pass_loss_gate, after_timed_breaker,
  pass_timed_breaker, pass_kill_switch, evaluate_with_state, record_resolved_trade,
}
use verdict_risk.Gates.KillSwitch
use verdict_risk.Gates.TimedBreaker
use verdict_risk.Gates.LossGate

-- The authority with its gates alone.
abbrev pub bare : RiskAuthority → RiskAuthority
bare a = record a { on_trip = none; last_trip_reason = none }

abbrev pub Quiet : Option (RiskDecision → RiskDecision) → Type 0
Quiet on_trip =
    (callback : RiskDecision → RiskDecision) (d : RiskDecision)
    → on_trip ≡ some callback
    → callback d ≡ d

-- The answers are the same, and so are the gates.
abbrev Alike : Evaluation → Evaluation → Type 0
Alike e e' = (e.answer ≡ e'.answer) × (bare e.authority ≡ e'.authority)

maybe_fire_trip-Alike :
    (a : RiskAuthority) (d : RiskDecision)
    → Quiet a.on_trip
    → Alike (maybe_fire_trip a d) (maybe_fire_trip (bare a) d)
unfolding maybe_fire_trip
maybe_fire_trip-Alike a d q = elim (Option-cases a.on_trip) [
  | inl silent ↦ ground arith
  | inr (callback, set) ↦ ground (arith, q callback d set)
]

pass_loss_gate-Alike :
    (a : RiskAuthority) (ctx : RiskContext) (trade : Trade) (ns : ℕ) (d : RiskDecision)
    → Quiet a.on_trip
    → Alike (pass_loss_gate a ctx trade ns d) (pass_loss_gate (bare a) ctx trade ns d)
unfolding pass_loss_gate delegate
pass_loss_gate-Alike a ctx trade ns d q = elim (Option-cases a.consecutive_loss_gate) [
  | inl absent ↦ ground arith
  | inr (gate, present) ↦ ground (arith, maybe_fire_trip-Alike a (LossGate.check gate d).0 q)
]

after_timed_breaker-Alike :
    (a : RiskAuthority) (ctx : RiskContext) (trade : Trade) (ns : ℕ) (v : Verdict)
    → Quiet a.on_trip
    → Alike (after_timed_breaker a ctx trade ns v) (after_timed_breaker (bare a) ctx trade ns v)
unfolding after_timed_breaker
after_timed_breaker-Alike a ctx trade ns (err e) q = (refl, refl)
after_timed_breaker-Alike a ctx trade ns (ok (d, true)) q = pass_loss_gate-Alike a ctx trade ns d q
after_timed_breaker-Alike a ctx trade ns (ok (d, false)) q = maybe_fire_trip-Alike a d q

pass_timed_breaker-Alike :
    (a : RiskAuthority) (ctx : RiskContext) (trade : Trade) (ns : ℕ) (d : RiskDecision)
    → Quiet a.on_trip
    → Alike (pass_timed_breaker a ctx trade ns d) (pass_timed_breaker (bare a) ctx trade ns d)
unfolding pass_timed_breaker
pass_timed_breaker-Alike a ctx trade ns d q = elim (Option-cases a.timed_breaker) [
  | inl absent ↦ ground (arith, pass_loss_gate-Alike a ctx trade ns d q)
  | inr (b, present) ↦
      let checked = TimedBreaker.check b d trade.current_time in
      let a' = record a { timed_breaker = some checked.0 } in
      ground (arith, after_timed_breaker-Alike a' ctx trade ns checked.1 q)
]

pass_kill_switch-Alike :
    (a : RiskAuthority) (ctx : RiskContext) (trade : Trade) (ns : ℕ) (d : RiskDecision)
    → Quiet a.on_trip
    → Alike (pass_kill_switch a ctx trade ns d) (pass_kill_switch (bare a) ctx trade ns d)
unfolding pass_kill_switch KillSwitch.check
pass_kill_switch-Alike a ctx trade ns d q = elim (Option-cases a.kill_switch) [
  | inl absent ↦ ground (arith, pass_timed_breaker-Alike a ctx trade ns d q)
  | inr (switch, present) ↦ ground (
    arith,
    pass_timed_breaker-Alike a ctx trade ns d q,
    maybe_fire_trip-Alike a (KillSwitch.check switch d).0 q,
  )
]

evaluate_with_state-Alike :
    (a : RiskAuthority) (ctx : RiskContext) (trade : Trade) (ns : ℕ)
    → Quiet a.on_trip
    → Alike (evaluate_with_state a ctx trade ns) (evaluate_with_state (bare a) ctx trade ns)
unfolding evaluate_with_state
evaluate_with_state-Alike a ctx trade ns q = elim (Bool-cases (is_finite trade.proposed_cost)) [
  | inl good ↦
      rw (evaluate_with_state, new_decision-finite trade.proposed_cost good)
        (pass_kill_switch-Alike a ctx trade ns (approval trade.proposed_cost) q)
  | inr bad ↦ rw (evaluate_with_state, new_decision-err trade.proposed_cost bad) (refl, refl)
]

step-bare : (a : RiskAuthority) (u : Use) → Quiet a.on_trip → bare (step a u) ≡ step (bare a) u
unfolding step record_resolved_trade
step-bare a (evaluating ctx trade ns) q = (evaluate_with_state-Alike a ctx trade ns q).1
step-bare a (settling pnl at) q = refl
step-bare a (tripping_switch at) q = refl
step-bare a resetting_switch q = refl
step-bare a resetting_breaker q = refl
step-bare a resetting_gate q = refl

step-Quiet : (a : RiskAuthority) (u : Use) → Quiet a.on_trip → Quiet (step a u).on_trip
unfolding session
step-Quiet a u q = subst Quiet (sym (session-on_trip a (u ∷ []))) q

pub session-bare :
    (a : RiskAuthority) (uses : List Use)
    → Quiet a.on_trip
    → bare (session a uses) ≡ session (bare a) uses
unfolding session
session-bare a [] q = refl
session-bare a (u ∷ uses) q =
    session-bare (step a u) uses (step-Quiet a u q)
    ∙ ap (λ (x : RiskAuthority). session x uses) (step-bare a u q)

answers_after :
    (a : RiskAuthority) (ctx : RiskContext) (trade : Trade) (ns : ℕ) (uses : List Use)
    → (evaluate_with_state a ctx trade ns).answer
      ≡ (evaluate_with_state (bare a) ctx trade ns).answer
    → session_answers (step a (evaluating ctx trade ns)) uses
      ≡ session_answers (step (bare a) (evaluating ctx trade ns)) uses
    → session_answers a (evaluating ctx trade ns ∷ uses)
      ≡ session_answers (bare a) (evaluating ctx trade ns ∷ uses)
unfolding session_answers
answers_after a ctx trade ns uses e h = cc

pub session_answers-bare :
    (a : RiskAuthority) (uses : List Use)
    → Quiet a.on_trip
    → session_answers a uses ≡ session_answers (bare a) uses
unfolding session_answers step record_resolved_trade
session_answers-bare a [] q = refl
session_answers-bare a (evaluating ctx trade ns ∷ uses) q =
    let u = evaluating ctx trade ns in
    answers_after a ctx trade ns uses (evaluate_with_state-Alike a ctx trade ns q).0 (
      session_answers-bare (step a u) uses (step-Quiet a u q)
      ∙ ap (λ (x : RiskAuthority). session_answers x uses) (step-bare a u q))
session_answers-bare a (settling pnl at ∷ uses) q =
    session_answers-bare (step a (settling pnl at)) uses q
session_answers-bare a (tripping_switch at ∷ uses) q =
    session_answers-bare (step a (tripping_switch at)) uses q
session_answers-bare a (resetting_switch ∷ uses) q =
    session_answers-bare (step a resetting_switch) uses q
session_answers-bare a (resetting_breaker ∷ uses) q =
    session_answers-bare (step a resetting_breaker) uses q
session_answers-bare a (resetting_gate ∷ uses) q =
    session_answers-bare (step a resetting_gate) uses q
