-- ===== src/Engine/Authority/Passing.antt =====
-- Evaluations that every stateful gate lets through: the converse of Stateful.

use verdict_risk.Gates.Verdict.{pass}
use verdict_risk.Py.Except.{ok}
use verdict_risk.Engine.Chain.Approval.{new_decision-finite, evaluate_stateless_bad_cost}
use verdict_risk.Py.Float.{is_finite}
use verdict_risk.Engine.Authority.Stateful.{KillSwitchPasses, TimedBreakerPasses, LossGatePasses}
use verdict_risk.Engine.Chain.{Trade, evaluate_stateless}
use verdict_risk.Gates.Pass.{approval}
use verdict_risk.State.{RiskContext, RiskDecision}
use verdict_risk.Py.Time.{Datetime}
use verdict_risk.Prelude.{
  Bool-cases, Option-cases, ℕ, ◌≡◌, refl, sym, ap, ◌∙◌, subst, inl, inr, true, Option, some, [],
  arith,
}
use verdict_risk.Engine.Authority.{
  RiskAuthority, Evaluation, delegate, pass_loss_gate, after_timed_breaker, pass_timed_breaker,
  pass_kill_switch, evaluate_with_state, map_some,
}
use verdict_risk.Gates.KillSwitch
use verdict_risk.Gates.TimedBreaker
use verdict_risk.Gates.TimedBreaker.{TimedCircuitBreaker, reset, check_tripped, check}
use verdict_risk.Gates.TimedBreaker.Passes
use verdict_risk.Gates.TimedBreaker.Passes.{CooledDown, over-check, over-passes}

-- The breaker as a check at this time leaves it.
abbrev pub checked :
    Option TimedCircuitBreaker → RiskDecision → Option Datetime → Option TimedCircuitBreaker
checked o d now = map_some (λ b. (TimedBreaker.check b d now).0) o

-- The authority as an evaluation leaves it that reaches the pure gates.
abbrev pub asked : RiskAuthority → Trade → RiskAuthority
asked a trade = record a {
  timed_breaker = checked a.timed_breaker (approval trade.proposed_cost) trade.current_time;
}

loss_gate_passes :
    (a : RiskAuthority) (ctx : RiskContext) (trade : Trade) (ns : ℕ) (d : RiskDecision)
    → LossGatePasses a.consecutive_loss_gate d
    → pass_loss_gate a ctx trade ns d ≡ delegate a ctx trade ns
unfolding pass_loss_gate
loss_gate_passes a ctx trade ns d p = elim (Option-cases a.consecutive_loss_gate) [
  | inl absent ↦ ground arith
  | inr (gate, present) ↦ ground arith
]

timed_breaker_passes :
    (a : RiskAuthority) (ctx : RiskContext) (trade : Trade) (ns : ℕ) (d : RiskDecision)
    → TimedBreakerPasses a.timed_breaker d trade.current_time
    → LossGatePasses a.consecutive_loss_gate d
    → pass_timed_breaker a ctx trade ns d
      ≡ delegate
          (record a { timed_breaker = checked a.timed_breaker d trade.current_time })
          ctx
          trade
          ns
unfolding pass_timed_breaker after_timed_breaker
timed_breaker_passes a ctx trade ns d p q = elim (Option-cases a.timed_breaker) [
  | inl absent ↦ ground (arith, loss_gate_passes a ctx trade ns d q)
  | inr (b, present) ↦
      let a' = record a { timed_breaker = some (TimedBreaker.check b d trade.current_time).0 } in
      ground (arith, loss_gate_passes a' ctx trade ns d q)
]

kill_switch_passes :
    (a : RiskAuthority) (ctx : RiskContext) (trade : Trade) (ns : ℕ) (d : RiskDecision)
    → KillSwitchPasses a.kill_switch
    → TimedBreakerPasses a.timed_breaker d trade.current_time
    → LossGatePasses a.consecutive_loss_gate d
    → pass_kill_switch a ctx trade ns d ≡ pass_timed_breaker a ctx trade ns d
unfolding pass_kill_switch KillSwitch.check
kill_switch_passes a ctx trade ns d k p q = elim (Option-cases a.kill_switch) [
  | inl absent ↦ ground arith
  | inr (switch, present) ↦ ground arith
]

-- If every stateful gate that is configured lets an approval of a finite cost through, the
-- evaluation answers as the pure chain does and calls nothing, and of the authority only the
-- breaker may change, as its check leaves it.
pub evaluate_with_state_passes :
    (a : RiskAuthority) (ctx : RiskContext) (trade : Trade) (ns : ℕ)
    → is_finite trade.proposed_cost ≡ true
    → KillSwitchPasses a.kill_switch
    → TimedBreakerPasses a.timed_breaker (approval trade.proposed_cost) trade.current_time
    → LossGatePasses a.consecutive_loss_gate (approval trade.proposed_cost)
    → evaluate_with_state a ctx trade ns
      ≡ record { authority = asked a trade; answer = evaluate_stateless ctx trade ns; calls = [] }
unfolding evaluate_with_state delegate
evaluate_with_state_passes a ctx trade ns f k p q =
    let d = approval trade.proposed_cost in
    rw (evaluate_with_state, new_decision-finite trade.proposed_cost f)
      (kill_switch_passes a ctx trade ns d k p q ∙ timed_breaker_passes a ctx trade ns d p q)

pub stateless-finite :
    (ctx : RiskContext) (trade : Trade) (ns : ℕ) (after : RiskDecision)
    → evaluate_stateless ctx trade ns ≡ ok after
    → is_finite trade.proposed_cost ≡ true
stateless-finite ctx trade ns after e = elim (Bool-cases (is_finite trade.proposed_cost)) [
  | inl good ↦ good
  | inr bad ↦ absurd (ground (arith, evaluate_stateless_bad_cost ctx trade ns bad))
]

reset-passes :
    (b : TimedCircuitBreaker) (d : RiskDecision) (now : Option Datetime)
    → (TimedBreaker.check (TimedBreaker.reset b) d now).1 ≡ pass d
unfolding TimedBreaker.reset TimedBreaker.check TimedBreaker.check_tripped
reset-passes b d now = refl

-- A tripped breaker whose cooldown is over recovers by itself: with no other gate in the way and
-- finite costs, the evaluation at that time answers as the pure chain does and calls nothing, and
-- so does the next one, for any trade and at any time.
pub evaluate_with_state_recovers :
    (a : RiskAuthority) (b : TimedCircuitBreaker) (ctx ctx' : RiskContext) (trade trade' : Trade)
    (ns ns' : ℕ)
    → a.timed_breaker ≡ some b
    → b.tripped ≡ true
    → CooledDown b trade.current_time
    → KillSwitchPasses a.kill_switch
    → ((d : RiskDecision) → LossGatePasses a.consecutive_loss_gate d)
    → is_finite trade.proposed_cost ≡ true
    → is_finite trade'.proposed_cost ≡ true
    → let first = evaluate_with_state a ctx trade ns in
      let next = evaluate_with_state first.authority ctx' trade' ns' in
      (first.answer ≡ evaluate_stateless ctx trade ns)
      × (next.answer ≡ evaluate_stateless ctx' trade' ns')
      × (first.calls ≡ [])
      × (next.calls ≡ [])
evaluate_with_state_recovers a b ctx ctx' trade trade' ns ns' present tripped over k l f f' =
    let d = approval trade.proposed_cost in
    let d' = approval trade'.proposed_cost in
    let now = trade.current_time in
    let first =
      evaluate_with_state_passes a ctx trade ns f k
        (rw present (Passes.over-passes b d now tripped over)) (l d) in
    let cleared : checked a.timed_breaker d now ≡ some (TimedBreaker.reset b) =
      rw (present, Passes.over-check b d now tripped over) refl in
    let next =
      evaluate_with_state_passes (asked a trade) ctx' trade' ns' f' k
        (subst (λ o. TimedBreakerPasses o d' trade'.current_time) (sym cleared)
          (reset-passes b d' trade'.current_time))
        (l d') in
    (
      ap (λ (e : Evaluation). e.answer) first,
      ap (λ (e : Evaluation). (evaluate_with_state e.authority ctx' trade' ns').answer) first
          ∙ ap (λ (e : Evaluation). e.answer) next,
      ap (λ (e : Evaluation). e.calls) first,
      ap (λ (e : Evaluation). (evaluate_with_state e.authority ctx' trade' ns').calls) first
          ∙ ap (λ (e : Evaluation). e.calls) next,
    )
