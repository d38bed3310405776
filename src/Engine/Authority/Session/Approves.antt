-- ===== src/Engine/Authority/Session/Approves.antt =====
-- What an approval of an authority says about the whole session before it.

use verdict_risk.Engine.Authority.Passing.{evaluate_with_state_passes, stateless-finite}
use verdict_risk.Gates.Pass.{approval}
use verdict_risk.Engine.Chain.{Trade, evaluate_stateless}
use verdict_risk.Py.Float.{Float}
use verdict_risk.Engine.Authority.Session.Breaker.{session-Holds}
use verdict_risk.Engine.Authority.Session.Gates.{
  session-kill_switch, settled, session-loss_gate, session-on_trip,
}
use verdict_risk.Engine.Authority.Session.Passes.{
  NotHalted, FewLosses, Rested, switch-NotHalted_iff, breaker-Rested, Rested-passes, init-reset,
}
use verdict_risk.Engine.Authority.Session.{Use, session}
use verdict_risk.Engine.Authority.Stateful.{
  KeepsRejections, KillSwitchPasses, TimedBreakerPasses, LossGatePasses, evaluate_with_state_sound,
}
use verdict_risk.State.{RiskContext, RiskDecision}
use verdict_risk.Py.Time.{Datetime}
use verdict_risk.Py.Except.{ok}
use verdict_risk.Prelude.{ℤ, ℕ, String, ◌≡◌, refl, sym, ap, ◌∙◌, ◌↔◌, true, Option, some, List, []}
use verdict_risk.Engine.Authority
use verdict_risk.Engine.Authority.{RiskAuthority, init, Evaluation, evaluate_with_state}
use verdict_risk.Gates.KillSwitch
use verdict_risk.Gates.TimedBreaker
use verdict_risk.Gates.TimedBreaker.{TimedCircuitBreaker}
use verdict_risk.Gates.TimedBreaker.Invariant
use verdict_risk.Gates.LossGate
use verdict_risk.Gates.LossGate.{ConsecutiveLossGate}
use verdict_risk.Gates.LossGate.Window
use verdict_risk.Gates.LossGate.Window.{record_all-nil, check-record_all_iff}

-- An authority with three gates.
abbrev pub guarded :
    String
    → TimedCircuitBreaker
    → ConsecutiveLossGate
    → Option (RiskDecision → RiskDecision)
    → RiskAuthority
guarded reason b g on_trip =
    Authority.init (some (KillSwitch.init reason)) (some b) (some g) on_trip

pub session-KeepsRejections :
    (a : RiskAuthority) (uses : List Use) → KeepsRejections a → KeepsRejections (session a uses)
session-KeepsRejections a uses keeps callback d h r =
    keeps callback d (sym (session-on_trip a uses) ∙ h) r

-- What the three gates are after a session, and what they let through.
pub gates-after :
    (reason : String) (threshold max_losses window : ℤ) (cooldown : Float) (b : TimedCircuitBreaker)
    (g : ConsecutiveLossGate) (on_trip : Option (RiskDecision → RiskDecision)) (uses : List Use)
    (d : RiskDecision) (now : Option Datetime)
    → TimedBreaker.init threshold cooldown ≡ ok b
    → LossGate.init max_losses window ≡ ok g
    → let a = session (guarded reason b g on_trip) uses in
      (KillSwitchPasses a.kill_switch ↔ NotHalted uses)
      × (TimedBreakerPasses a.timed_breaker d now ↔ Rested b a.timed_breaker now)
      × (LossGatePasses a.consecutive_loss_gate d ↔ FewLosses g uses)
unfolding Authority.init
gates-after reason threshold max_losses window cooldown b g on_trip uses d now e k =
    let a = guarded reason b g on_trip in
    let holds =
      session-Holds b a uses (Invariant.init-IsValid threshold cooldown b e, refl, refl) in
    (
      rw (session-kill_switch a uses (KillSwitch.init reason) refl)
          (switch-NotHalted_iff reason uses d),
      (
        breaker-Rested b (session a uses).timed_breaker d now holds,
        Rested-passes b (session a uses).timed_breaker d now holds,
      ),
      rw
          (session-loss_gate a uses g [] (init-reset max_losses window g k)
            (ap some (sym (Window.record_all-nil g))))
          (Window.check-record_all_iff max_losses window g (settled [] uses) d k),
    )

-- For an authority with new gates and a callback that keeps rejections, after any session: an
-- evaluation approves exactly when no trip of the switch stands since its last reset; the results
-- that settled since the last reset of the loss gate do not fill its window, or have few enough
-- losses in it; the breaker is below its threshold, or at it with its cooldown over; and the pure
-- chain approves.
pub session_approves_iff :
    (reason : String) (threshold max_losses window : ℤ) (cooldown : Float) (b : TimedCircuitBreaker)
    (g : ConsecutiveLossGate) (on_trip : Option (RiskDecision → RiskDecision)) (uses : List Use)
    (ctx : RiskContext) (trade : Trade) (ns : ℕ) (after : RiskDecision)
    → TimedBreaker.init threshold cooldown ≡ ok b
    → LossGate.init max_losses window ≡ ok g
    → KeepsRejections (guarded reason b g on_trip)
    → let a = session (guarded reason b g on_trip) uses in
      (((evaluate_with_state a ctx trade ns).answer ≡ ok after) × (after.approved ≡ true)) ↔ (
        NotHalted uses
        × Rested b a.timed_breaker trade.current_time
        × FewLosses g uses
        × (evaluate_stateless ctx trade ns ≡ ok after)
        × (after.approved ≡ true))
session_approves_iff reason threshold max_losses window cooldown b g on_trip uses ctx trade ns after
      e k keeps =
    let a = session (guarded reason b g on_trip) uses in
    let d = approval trade.proposed_cost in
    let (switch, breaker, gate) =
      gates-after reason threshold max_losses window cooldown b g on_trip uses d trade.current_time
        e k in
    let keeps' = session-KeepsRejections (guarded reason b g on_trip) uses keeps in
    (
      λ (p, yes_).
          let (s, t, l, pure) = evaluate_with_state_sound a ctx trade ns after keeps' p yes_ in
          (switch.0 s, breaker.0 t, gate.0 l, pure, yes_),
      λ (s, t, l, pure, yes_). (
        ap (λ (r : Evaluation). r.answer)
              (evaluate_with_state_passes a ctx trade ns (stateless-finite ctx trade ns after pure)
                (switch.1 s) (breaker.1 t) (gate.1 l))
            ∙ pure,
        yes_,
      ),
    )
