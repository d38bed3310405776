-- ===== src/Engine/Authority/Session/Kept.antt =====
-- What an evaluation keeps of the authority: all but the breaker, which a check may clear, and the
-- reason reported last.
use verdict_risk.Prelude.{
  Bool-cases, Option-cases, ℕ, ◌≡◌, refl, ◌⊎◌, inl, inr, true, false, Option, some, arith,
}
use verdict_risk.Py.Except.{err, ok}
use verdict_risk.Py.Float.{is_finite}
use verdict_risk.Py.Time.{Datetime}
use verdict_risk.State.{RiskContext, RiskDecision}
use verdict_risk.Gates.Verdict.{Verdict}
use verdict_risk.Gates.Pass.{approval}
use verdict_risk.Engine.Chain.{Trade}
use verdict_risk.Engine.Chain.Approval.{new_decision-finite, new_decision-err}
use verdict_risk.Engine.Authority.{
  RiskAuthority, Evaluation, maybe_fire_trip, delegate, pass_loss_gate, after_timed_breaker,
  pass_timed_breaker, pass_kill_switch, evaluate_with_state,
}
use verdict_risk.Gates.KillSwitch
use verdict_risk.Gates.TimedBreaker
use verdict_risk.Gates.TimedBreaker.{TimedCircuitBreaker}
use verdict_risk.Gates.LossGate
use verdict_risk.Gates.LossGate.{ConsecutiveLossGate}

-- The breaker is as it was, or as a check leaves it.
abbrev pub Checked : Option TimedCircuitBreaker → Option TimedCircuitBreaker → Type 0
Checked before after =
    (after ≡ before)
    ⊎ ((b : TimedCircuitBreaker) × (d : RiskDecision) × (now : Option Datetime) × (before ≡ some b)
        × (after ≡ some (TimedBreaker.check b d now).0))

-- What an evaluation keeps of the authority.
abbrev pub Kept : RiskAuthority → Evaluation → Type 0
Kept a e =
    (e.authority.kill_switch ≡ a.kill_switch)
    × (e.authority.consecutive_loss_gate ≡ a.consecutive_loss_gate)
    × (e.authority.on_trip ≡ a.on_trip)
    × Checked a.timed_breaker e.authority.timed_breaker

abbrev KeptAll : RiskAuthority → Evaluation → Type 0
KeptAll a e =
    (e.authority.kill_switch ≡ a.kill_switch)
    × (e.authority.consecutive_loss_gate ≡ a.consecutive_loss_gate)
    × (e.authority.on_trip ≡ a.on_trip)
    × (e.authority.timed_breaker ≡ a.timed_breaker)

maybe_fire_trip-KeptAll : (a : RiskAuthority) (d : RiskDecision) → KeptAll a (maybe_fire_trip a d)
unfolding maybe_fire_trip
maybe_fire_trip-KeptAll a d = ground arith

pass_loss_gate-KeptAll :
    (a : RiskAuthority) (ctx : RiskContext) (trade : Trade) (ns : ℕ) (d : RiskDecision)
    → KeptAll a (pass_loss_gate a ctx trade ns d)
unfolding pass_loss_gate delegate
pass_loss_gate-KeptAll a ctx trade ns d = elim (Option-cases a.consecutive_loss_gate) [
  | inl absent ↦ ground arith
  | inr (gate, present) ↦ ground (arith, maybe_fire_trip-KeptAll a (LossGate.check gate d).0)
]

after_timed_breaker-KeptAll :
    (a : RiskAuthority) (ctx : RiskContext) (trade : Trade) (ns : ℕ) (v : Verdict)
    → KeptAll a (after_timed_breaker a ctx trade ns v)
unfolding after_timed_breaker
after_timed_breaker-KeptAll a ctx trade ns (err e) = (refl, refl, refl, refl)
after_timed_breaker-KeptAll a ctx trade ns (ok (d, true)) = pass_loss_gate-KeptAll a ctx trade ns d
after_timed_breaker-KeptAll a ctx trade ns (ok (d, false)) = maybe_fire_trip-KeptAll a d

pass_timed_breaker-Kept :
    (a : RiskAuthority) (ctx : RiskContext) (trade : Trade) (ns : ℕ) (d : RiskDecision)
    → Kept a (pass_timed_breaker a ctx trade ns d)
unfolding pass_timed_breaker
pass_timed_breaker-Kept a ctx trade ns d = elim (Option-cases a.timed_breaker) [
  | inl absent ↦ ground (arith, pass_loss_gate-KeptAll a ctx trade ns d)
  | inr (b, present) ↦
      let checked = TimedBreaker.check b d trade.current_time in
      let a' = record a { timed_breaker = some checked.0 } in
      let (k, l, t, same) = after_timed_breaker-KeptAll a' ctx trade ns checked.1 in
      rw present (k, l, t, inr (b, d, trade.current_time, refl, same))
]

pass_kill_switch-Kept :
    (a : RiskAuthority) (ctx : RiskContext) (trade : Trade) (ns : ℕ) (d : RiskDecision)
    → Kept a (pass_kill_switch a ctx trade ns d)
unfolding pass_kill_switch KillSwitch.check
pass_kill_switch-Kept a ctx trade ns d = elim (Option-cases a.kill_switch) [
  | inl absent ↦ ground (arith, pass_timed_breaker-Kept a ctx trade ns d)
  | inr (switch, present) ↦ ground (
    arith,
    pass_timed_breaker-Kept a ctx trade ns d,
    maybe_fire_trip-KeptAll a (KillSwitch.check switch d).0,
  )
]

pub evaluate_with_state-Kept :
    (a : RiskAuthority) (ctx : RiskContext) (trade : Trade) (ns : ℕ)
    → Kept a (evaluate_with_state a ctx trade ns)
unfolding evaluate_with_state
evaluate_with_state-Kept a ctx trade ns = elim (Bool-cases (is_finite trade.proposed_cost)) [
  | inl good ↦
      rw (evaluate_with_state, new_decision-finite trade.proposed_cost good)
        (pass_kill_switch-Kept a ctx trade ns (approval trade.proposed_cost))
  | inr bad ↦
      rw (evaluate_with_state, new_decision-err trade.proposed_cost bad)
        (refl, refl, refl, inl refl)
]
