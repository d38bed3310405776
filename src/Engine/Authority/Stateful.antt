-- ===== src/Engine/Authority/Stateful.antt =====
-- The stateful gates come first, and only what they let through reaches the pure gates.

use verdict_risk.Engine.Chain.Approval.{
  new_decision-finite, new_decision-err, evaluate_stateless_bad_cost,
}
use verdict_risk.Gates.Pass.{approval}
use verdict_risk.Gates.Verdict.{Verdict, pass, timezone_mode, same_mode, Answers, Keeps}
use verdict_risk.Py.Time.{Datetime}
use verdict_risk.Py.Float.{is_finite}
use verdict_risk.Py.Except.{Result, ok, err}
use verdict_risk.State.{RiskContext, RiskDecision}
use verdict_risk.Prelude.{
  if◌then◌else◌, Bool-cases, Option-cases, ℕ, ◌≡◌, refl, ap, subst, inl, inr, Bool, true, false,
  Option, none, some, [], arith,
}
use verdict_risk.Gates.KillSwitch
use verdict_risk.Gates.KillSwitch.{KillSwitch, check}
use verdict_risk.Gates.TimedBreaker
use verdict_risk.Gates.TimedBreaker.{
  TimedCircuitBreaker, check_tripped, cooled_down, settle, check_cooldown,
}
use verdict_risk.Gates.LossGate
use verdict_risk.Gates.LossGate.{ConsecutiveLossGate}
use verdict_risk.Engine.Chain.{Trade, evaluate_stateless}
use verdict_risk.Engine.Authority.{
  RiskAuthority, Evaluation, maybe_fire_trip, delegate, pass_loss_gate, after_timed_breaker,
  pass_timed_breaker, pass_kill_switch, evaluate_with_state,
}

plain :
    (a : RiskAuthority) (ctx : RiskContext) (trade : Trade) (ns : ℕ) (d : RiskDecision)
    → a.kill_switch ≡ none
    → a.timed_breaker ≡ none
    → a.consecutive_loss_gate ≡ none
    → pass_kill_switch a ctx trade ns d ≡ delegate a ctx trade ns
unfolding pass_kill_switch pass_timed_breaker pass_loss_gate
plain a ctx trade ns d h k l = ground arith

-- A callback that does not turn a rejection into an approval.
abbrev pub KeepsRejections : RiskAuthority → Type 0
KeepsRejections a =
    (callback : RiskDecision → RiskDecision) (d : RiskDecision)
    → a.on_trip ≡ some callback
    → d.approved ≡ false
    → (callback d).approved ≡ false

-- With no stateful gate configured the authority answers as the pure chain does, calls nothing and
-- stays as it is.
pub evaluate_with_state_plain :
    (a : RiskAuthority) (ctx : RiskContext) (trade : Trade) (ns : ℕ)
    → a.kill_switch ≡ none
    → a.timed_breaker ≡ none
    → a.consecutive_loss_gate ≡ none
    → evaluate_with_state a ctx trade ns
      ≡ record { authority = a; answer = evaluate_stateless ctx trade ns; calls = [] }
unfolding evaluate_with_state delegate
evaluate_with_state_plain a ctx trade ns h k l = elim (Bool-cases (is_finite trade.proposed_cost)) [
  | inl good ↦
      rw (evaluate_with_state, new_decision-finite trade.proposed_cost good)
        (plain a ctx trade ns (approval trade.proposed_cost) h k l)
  | inr bad ↦ ground (
    arith,
    evaluate_stateless_bad_cost ctx trade ns bad,
    new_decision-err trade.proposed_cost bad,
  )
]

-- What each stateful gate, if there is one, says to a decision.
abbrev pub KillSwitchPasses : Option KillSwitch → Type 0
KillSwitchPasses none = Unit
KillSwitchPasses (some switch) = switch.tripped ≡ false

abbrev pub TimedBreakerPasses : Option TimedCircuitBreaker → RiskDecision → Option Datetime → Type 0
TimedBreakerPasses none d now = Unit
TimedBreakerPasses (some breaker) d now = (TimedBreaker.check breaker d now).1 ≡ pass d

abbrev pub LossGatePasses : Option ConsecutiveLossGate → RiskDecision → Type 0
LossGatePasses none d = Unit
LossGatePasses (some gate) d = LossGate.check gate d ≡ (d, true)

abbrev Approves : Evaluation → RiskDecision → Type 0
Approves e after = (e.answer ≡ ok after) × (after.approved ≡ true)

not_fired :
    (a : RiskAuthority) (d after : RiskDecision)
    → KeepsRejections a
    → d.approved ≡ false
    → ¬ (Approves (maybe_fire_trip a d) after)
unfolding maybe_fire_trip
not_fired a d after keeps r e = elim (Option-cases a.on_trip) [
  | inl silent ↦ ground arith
  | inr (callback, set) ↦ ground (arith, keeps callback d set r)
]

kill_switch-Answers :
    (switch : KillSwitch) (d : RiskDecision) → Answers d (ok (KillSwitch.check switch d))
unfolding KillSwitch.check
kill_switch-Answers switch d = ground arith

loss_gate-Answers :
    (gate : ConsecutiveLossGate) (d : RiskDecision) → Answers d (ok (LossGate.check gate d))
unfolding LossGate.check
loss_gate-Answers gate d = ground arith

check_tripped-Answers :
    (b : TimedCircuitBreaker) (d : RiskDecision) → Answers d (ok (TimedBreaker.check_tripped b d))
unfolding TimedBreaker.check_tripped
check_tripped-Answers b d = ground arith

settle-Keeps :
    (b : TimedCircuitBreaker) (d : RiskDecision) (r : Result Bool)
    → Keeps d (TimedBreaker.settle b d r).1
unfolding TimedBreaker.settle
settle-Keeps b d (err e) = tt
settle-Keeps b d (ok true) = refl
settle-Keeps b d (ok false) = check_tripped-Answers b d

check_cooldown-Keeps :
    (b : TimedCircuitBreaker) (d : RiskDecision) (t now : Option Datetime)
    → Keeps d (TimedBreaker.check_cooldown b d t now).1
unfolding TimedBreaker.check_cooldown
check_cooldown-Keeps b d none now = check_tripped-Answers b d
check_cooldown-Keeps b d (some t) none = check_tripped-Answers b d
check_cooldown-Keeps b d (some t) (some now) =
    elim (Bool-cases (same_mode (timezone_mode now) (timezone_mode t))) [
      | inl same ↦ rw same (settle-Keeps b d (TimedBreaker.cooled_down b t now))
      | inr mixed ↦ rw mixed (refl, refl)
    ]

timed_breaker-Keeps :
    (b : TimedCircuitBreaker) (d : RiskDecision) (now : Option Datetime)
    → Keeps d (TimedBreaker.check b d now).1
unfolding TimedBreaker.check
timed_breaker-Keeps b d now =
    either b.tripped (TimedBreaker.check_cooldown b d b.tripped_at now)
      (b, ok (TimedBreaker.check_tripped b d)) (check_cooldown-Keeps b d b.tripped_at now)
      (check_tripped-Answers b d)
  where
    either :
        (t : Bool) (x y : TimedCircuitBreaker × Verdict)
        → Keeps d x.1
        → Keeps d y.1
        → Keeps d (if t then x else y).1
    either true x y h k = h
    either false x y h k = k

loss_gate_sound :
    (a : RiskAuthority) (ctx : RiskContext) (trade : Trade) (ns : ℕ) (d after : RiskDecision)
    → KeepsRejections a
    → Approves (pass_loss_gate a ctx trade ns d) after
    → LossGatePasses a.consecutive_loss_gate d × (evaluate_stateless ctx trade ns ≡ ok after)
unfolding pass_loss_gate delegate
loss_gate_sound a ctx trade ns d after keeps e = elim (Option-cases a.consecutive_loss_gate) [
  | inl absent ↦ ground arith
  | inr (gate, present) ↦
      ground (arith, loss_gate-Answers gate d, not_fired a (LossGate.check gate d).0 after keeps)
]

after_timed_breaker_sound :
    (a : RiskAuthority) (ctx : RiskContext) (trade : Trade) (ns : ℕ) (d after : RiskDecision)
    (v : Verdict)
    → Keeps d v
    → KeepsRejections a
    → Approves (after_timed_breaker a ctx trade ns v) after
    → (v ≡ pass d)
      × LossGatePasses a.consecutive_loss_gate d
      × (evaluate_stateless ctx trade ns ≡ ok after)
unfolding after_timed_breaker
after_timed_breaker_sound a ctx trade ns d after (err e) h keeps p = cc
after_timed_breaker_sound a ctx trade ns d after (ok (x, false)) h keeps p =
    absurd (not_fired a x after keeps h.0 p)
after_timed_breaker_sound a ctx trade ns d after (ok (x, true)) h keeps p =
    let (gate, pure) = loss_gate_sound a ctx trade ns x after keeps p in
    (ap pass h, subst (LossGatePasses a.consecutive_loss_gate) h gate, pure)

timed_breaker_sound :
    (a : RiskAuthority) (ctx : RiskContext) (trade : Trade) (ns : ℕ) (d after : RiskDecision)
    → KeepsRejections a
    → Approves (pass_timed_breaker a ctx trade ns d) after
    → TimedBreakerPasses a.timed_breaker d trade.current_time
      × LossGatePasses a.consecutive_loss_gate d
      × (evaluate_stateless ctx trade ns ≡ ok after)
unfolding pass_timed_breaker
timed_breaker_sound a ctx trade ns d after keeps p = elim (Option-cases a.timed_breaker) [
  | inl absent ↦ ground (arith, loss_gate_sound a ctx trade ns d after keeps)
  | inr (b, present) ↦
      let checked = TimedBreaker.check b d trade.current_time in
      let a' = record a { timed_breaker = some checked.0 } in
      ground (
        arith,
        after_timed_breaker_sound a' ctx trade ns d after checked.1
            (timed_breaker-Keeps b d trade.current_time) keeps,
      )
]

kill_switch_sound :
    (a : RiskAuthority) (ctx : RiskContext) (trade : Trade) (ns : ℕ) (d after : RiskDecision)
    → KeepsRejections a
    → Approves (pass_kill_switch a ctx trade ns d) after
    → KillSwitchPasses a.kill_switch
      × TimedBreakerPasses a.timed_breaker d trade.current_time
      × LossGatePasses a.consecutive_loss_gate d
      × (evaluate_stateless ctx trade ns ≡ ok after)
unfolding pass_kill_switch KillSwitch.check
kill_switch_sound a ctx trade ns d after keeps p = elim (Option-cases a.kill_switch) [
  | inl absent ↦ ground (arith, timed_breaker_sound a ctx trade ns d after keeps)
  | inr (switch, present) ↦ ground (
    arith,
    timed_breaker_sound a ctx trade ns d after keeps,
    not_fired a (KillSwitch.check switch d).0 after keeps,
  )
]

-- With a callback that keeps rejections, an approval of the authority is an approval of the pure
-- chain, and every stateful gate that is configured lets the trade through: the desk's halts
-- override the pure gates, and nothing that those reject is approved.
pub evaluate_with_state_sound :
    (a : RiskAuthority) (ctx : RiskContext) (trade : Trade) (ns : ℕ) (after : RiskDecision)
    → KeepsRejections a
    → (evaluate_with_state a ctx trade ns).answer ≡ ok after
    → after.approved ≡ true
    → let d = approval trade.proposed_cost in
      KillSwitchPasses a.kill_switch
      × TimedBreakerPasses a.timed_breaker d trade.current_time
      × LossGatePasses a.consecutive_loss_gate d
      × (evaluate_stateless ctx trade ns ≡ ok after)
unfolding evaluate_with_state
evaluate_with_state_sound a ctx trade ns after keeps e ap' =
    elim (Bool-cases (is_finite trade.proposed_cost)) [
      | inl good ↦ ground (
        arith,
        new_decision-finite trade.proposed_cost good,
        kill_switch_sound a ctx trade ns (approval trade.proposed_cost) after keeps,
      )
      | inr bad ↦ ground (arith, new_decision-err trade.proposed_cost bad)
    ]
