-- ===== src/Tests/Stateful.antt =====
-- Runs of the stateful gates and the authority, and the theorems about them at concrete inputs.
use verdict_risk.Engine.Authority.Session.{session_calls, evaluating, settling}
use verdict_risk.Engine.Authority.Trips.{Alternates, session_calls-Alternates}
use verdict_risk.Engine.Authority.Stateful.{
  KeepsRejections, KillSwitchPasses, TimedBreakerPasses, LossGatePasses, evaluate_with_state_sound,
}
use verdict_risk.Engine.Authority.Halted.{Rejects, rejection, evaluate_with_state_killed}
use verdict_risk.Gates.KillSwitch
use verdict_risk.Gates.KillSwitch.Halts
use verdict_risk.Gates.TimedBreaker
use verdict_risk.Gates.TimedBreaker.Invariant
use verdict_risk.Gates.LossGate
use verdict_risk.Gates.LossGate.Window
use verdict_risk.Gates.TimedBreaker.Invariant.{IsValid, run-IsValid}
use verdict_risk.Gates.TimedBreaker.Cooldown.{check_iff}
use verdict_risk.Gates.KillSwitch.Halts.{
  check-run, tripped_at-run, answer, standing, tripping, resetting, Event,
}
use verdict_risk.Gates.LossGate.Window.{
  check-record_all_iff, record_all-history, check_inert, losses_of,
}
use verdict_risk.Gates.LossGate.{ConsecutiveLossGate, last_trades, count_true}
use verdict_risk.Gates.TimedBreaker.{TimedCircuitBreaker, check_tripped}
use verdict_risk.Gates.KillSwitch.{KillSwitch}
use verdict_risk.Engine.Authority.{
  RiskAuthority, delegate, pass_loss_gate, after_timed_breaker, pass_timed_breaker,
  pass_kill_switch, evaluate_with_state,
}
use verdict_risk.Gates.LossWindow.{
  modes_of, sort_outcomes, count_losses, evaluate_consecutive_losses,
}
use verdict_risk.Gates.Drawdown.{evaluate_drawdown}
use verdict_risk.Gates.Concentration.{counts_toward, exposure_from, evaluate_concentration}
use verdict_risk.Gates.ExpectedValue.{evaluate_expected_value}
use verdict_risk.Gates.ClusterCap.{evaluate_cluster_cap}
use verdict_risk.Engine.Chain.{
  then_gate, check_latency, check_cluster, run_gates, evaluate_stateless,
}
use verdict_risk.Gates.Verdict.{timezone_mode, rejected, pass}
use verdict_risk.State.{RiskDecision, new_decision}
use verdict_risk.Py.Float.{
  nan, is_nan, is_inf, is_finite, lt, le, magnitude, round, neg, add, mul, div,
}
use verdict_risk.Py.Time.{instant, timedelta_hours, total_seconds}
use verdict_risk.Py.Number.{Number, float}
use verdict_risk.Py.Except.{ok}
use verdict_risk.Prelude.{
  length, ◌-ℤ◌, ◌≤ℤ◌, pos, ◌≤◌, ◌<◌, ◌≡◌, refl, ◌↔◌, ◌⊎◌, true, false, none, some, List, [], ◌∷◌,
  arith,
}
use verdict_risk.Tests.Data.{dollars, minus_dollars, half, clock, desk, proposal, fresh}

-- Halted at noon, halted again, cleared, and halted once more with no time.
abbrev halts : List Event
halts = tripping (some (clock 720)) ∷ tripping (some (clock 730)) ∷ resetting ∷ tripping none ∷ []

check-run_example :
    KillSwitch.check (Halts.run (KillSwitch.init "HALT") halts) fresh ≡ rejected fresh "HALT"
check-run_example = check-run "HALT" halts fresh

-- Two losses trip it for half an hour.
abbrev armed : TimedCircuitBreaker
armed = record {
  consecutive_loss_threshold = 2;
  cooldown_hours = half;
  loss_streak = 0;
  tripped = false;
  tripped_at = none;
}

abbrev stopped : TimedCircuitBreaker
stopped = record armed { loss_streak = 2; tripped = true; tripped_at = some (clock 720) }

run-IsValid_example : IsValid (
    Invariant.run armed (
      Invariant.Event.recording (float (minus_dollars 1)) none
      ∷ Invariant.Event.recording (float (minus_dollars 1)) none
      ∷ Invariant.Event.checking fresh (some (clock 720))
      ∷ Invariant.Event.resetting
      ∷ []))
unfolding TimedBreaker.init le
run-IsValid_example =
    run-IsValid (pos 2) half armed
      (Invariant.Event.recording (float (minus_dollars 1)) none
        ∷ Invariant.Event.recording (float (minus_dollars 1)) none
        ∷ Invariant.Event.checking fresh (some (clock 720))
        ∷ Invariant.Event.resetting
        ∷ [])
      refl

-- Half an hour is 1,800 seconds; it is over at 750.
check_iff_example :
    (TimedBreaker.check stopped fresh (some (clock 750)) ≡ (TimedBreaker.reset stopped, pass fresh))
    ↔ (pos 1_800_000_000 ≤ℤ (instant (clock 750) -ℤ instant (clock 720)))
unfolding timedelta_hours timezone_mode magnitude
check_iff_example =
    check_iff stopped fresh (clock 720) (clock 750) (pos 1_800_000_000) refl refl refl refl

-- At most one loss among the last two trades.
abbrev gate : ConsecutiveLossGate
gate = record { max_losses = 1; window_trades = 2; history = [] }

abbrev results : List Number
results = float (dollars 4) ∷ float (minus_dollars 1) ∷ float nan ∷ float (minus_dollars 2) ∷ []

check-record_all_iff_example :
    (LossGate.check (Window.record_all gate results) fresh ≡ (fresh, true))
    ↔ ((length (losses_of results) < 2) ⊎ (count_true (last_trades 2 (losses_of results)) ≤ 1))
unfolding LossGate.init
check-record_all_iff_example = check-record_all_iff (pos 1) (pos 2) gate results fresh refl

abbrev switch : KillSwitch
switch = record { reason = "HALT"; tripped = true; tripped_at = none }

-- A callback that leaves the decision alone.
abbrev ignore : RiskDecision → RiskDecision
ignore d = d

abbrev halted : RiskAuthority
halted = record {
  kill_switch = some switch;
  timed_breaker = some armed;
  consecutive_loss_gate = some gate;
  on_trip = some ignore;
  last_trip_reason = none;
}

abbrev running : RiskAuthority
running = record halted { kill_switch = none }

evaluate_with_state_killed_example :
    let e = evaluate_with_state halted desk proposal 400_000 in
    Rejects halted (rejection "HALT" proposal.proposed_cost) e
    × (evaluate_with_state e.authority desk proposal 600_000 ≡ record {
      authority = e.authority;
      answer = ok (rejection "HALT" proposal.proposed_cost);
      calls = [];
    })
unfolding is_finite
evaluate_with_state_killed_example =
    evaluate_with_state_killed halted desk desk proposal proposal 400_000 600_000 switch refl refl
      refl refl

running-KeepsRejections : KeepsRejections running
running-KeepsRejections callback d e h = ground arith

-- An authority with an armed breaker and an empty history approves the proposal.
running_approves : (evaluate_with_state running desk proposal 400_000).answer ≡ ok fresh
unfolding evaluate_with_state pass_kill_switch pass_timed_breaker after_timed_breaker pass_loss_gate
    delegate TimedBreaker.check check_tripped LossGate.check evaluate_stateless new_decision
    is_finite run_gates then_gate evaluate_expected_value evaluate_drawdown
    evaluate_consecutive_losses evaluate_concentration check_cluster check_latency
    evaluate_cluster_cap counts_toward exposure_from is_nan is_inf lt le add mul div round magnitude
    neg modes_of timezone_mode sort_outcomes count_losses total_seconds instant ◌-ℤ◌
running_approves = refl

evaluate_with_state_sound_example :
    KillSwitchPasses none
    × TimedBreakerPasses (some armed) fresh (some (clock 720))
    × LossGatePasses (some gate) fresh
    × (evaluate_stateless desk proposal 400_000 ≡ ok fresh)
evaluate_with_state_sound_example =
    evaluate_with_state_sound running desk proposal 400_000 fresh running-KeepsRejections
      running_approves refl

session_calls-Alternates_example : Alternates none (
    session_calls halted (
      evaluating desk proposal 400_000
      ∷ settling (float (minus_dollars 1)) (some (clock 725))
      ∷ evaluating desk proposal 400_000
      ∷ []))
session_calls-Alternates_example = session_calls-Alternates halted (
    evaluating desk proposal 400_000
    ∷ settling (float (minus_dollars 1)) (some (clock 725))
    ∷ evaluating desk proposal 400_000
    ∷ [])
