-- ===== src/Provider/Desk/Tests.antt =====
-- A day of a provider at concrete inputs.
use verdict_risk.Prelude.{◌-ℤ◌, ◌≤ℤ◌, pos, ◌/◌, ◌≡◌, refl, false, none, some, List, [], ◌∷◌, arith}
use verdict_risk.Py.Except.{ok}
use verdict_risk.Py.Float.{is_nan, is_inf, is_finite, lt, le, magnitude, round, neg, add, mul, div}
use verdict_risk.Py.Number.{is_finite_number, float}
use verdict_risk.Py.Time.{instant, total_seconds}
use verdict_risk.Py.Format.{join}
use verdict_risk.State.{new_decision}
use verdict_risk.Gates.Verdict.{timezone_mode}
use verdict_risk.Gates.Drawdown.{evaluate_drawdown}
use verdict_risk.Gates.Concentration.{counts_toward, exposure_from, evaluate_concentration}
use verdict_risk.Gates.ExpectedValue.{evaluate_expected_value}
use verdict_risk.Gates.LossWindow.{
  modes_of, sort_outcomes, count_losses, evaluate_consecutive_losses,
}
use verdict_risk.Gates.KillSwitch
use verdict_risk.Gates.TimedBreaker
use verdict_risk.Gates.TimedBreaker.{TimedCircuitBreaker}
use verdict_risk.Gates.LossGate
use verdict_risk.Gates.LossGate.{ConsecutiveLossGate, last_trades}
use verdict_risk.Engine.Chain.{
  then_gate, check_latency, check_cluster, run_gates, evaluate_stateless,
}
use verdict_risk.Engine.Authority
use verdict_risk.Engine.Authority.{
  init, delegate, pass_loss_gate, after_timed_breaker, pass_timed_breaker, pass_kill_switch,
  evaluate_with_state, record_resolved_trade,
}
use verdict_risk.Engine.Authority.Stateful.{KeepsRejections}
use verdict_risk.Engine.Authority.Session.{step, settling, tripping_switch, resetting_switch}
use verdict_risk.Engine.Authority.Session.Passes.{NotHalted, FewLosses, Rested}
use verdict_risk.Engine.Authority.Session.Approves.{guarded}
use verdict_risk.Receipts.{
  is_sensitive, reject_sensitive, reject_fields, reject_items, hash_of, build_risk_receipt,
}
use verdict_risk.Provider.{report_gate, gate_report, decide}
use verdict_risk.Provider.Evaluate.{
  RiskProvider, provider_init, details_of, receipt_request, conclude, evaluate,
}
use verdict_risk.Provider.Agreement.{AllApproved}
use verdict_risk.Provider.Samples.{request, runtime, report, result}
use verdict_risk.Provider.Desk.{Event, day, uses_of, evaluate_approved-day, asking, using}
use verdict_risk.Tests.Data.{dollars, minus_dollars, half, clock, desk}

-- Two losses trip it for half an hour.
abbrev two_strikes : TimedCircuitBreaker
two_strikes = record {
  consecutive_loss_threshold = 2;
  cooldown_hours = half;
  loss_streak = 0;
  tripped = false;
  tripped_at = none;
}

-- At most one loss among the last two trades.
abbrev last_two : ConsecutiveLossGate
last_two = record { max_losses = 1; window_trades = 2; history = [] }

-- Halted and released, a loss, and a request.
abbrev events : List Event
events =
    using (tripping_switch (some (clock 600)))
    ∷ using resetting_switch
    ∷ using (settling (float (minus_dollars 5)) (some (clock 700)))
    ∷ asking request 400_000 500_000
    ∷ []

abbrev opened : RiskProvider
opened = record { ctx = desk; authority = guarded "HALT" two_strikes last_two none }

opened-KeepsRejections : KeepsRejections (guarded "HALT" two_strikes last_two none)
unfolding Authority.init
opened-KeepsRejections callback d e h = ground arith

day_approves :
    (evaluate runtime (day runtime opened events) request 400_000 500_000).answer ≡ ok result
unfolding day step record_resolved_trade Authority.init KillSwitch.init KillSwitch.trip
    KillSwitch.reset KillSwitch.check TimedBreaker.record_trade TimedBreaker.record_loss
    TimedBreaker.check TimedBreaker.check_tripped LossGate.record_trade LossGate.check last_trades
    is_finite_number evaluate conclude decide gate_report report_gate build_risk_receipt hash_of
    join receipt_request details_of reject_sensitive reject_fields reject_items is_sensitive
    evaluate_with_state pass_kill_switch pass_timed_breaker after_timed_breaker pass_loss_gate
    delegate evaluate_stateless new_decision is_finite run_gates then_gate evaluate_expected_value
    evaluate_drawdown evaluate_consecutive_losses evaluate_concentration check_cluster check_latency
    counts_toward exposure_from is_nan is_inf lt le add mul div round magnitude neg modes_of
    timezone_mode sort_outcomes count_losses total_seconds instant ◌-ℤ◌
day_approves = refl

evaluate_approved-day_example :
    NotHalted (uses_of desk events)
    × Rested two_strikes (day runtime opened events).authority.timed_breaker (some (clock 720))
    × FewLosses last_two (uses_of desk events)
    × AllApproved report
    × (pos (400_000 / 1000) ≤ℤ pos 500)
    × (dollars 20 ≡ dollars 20)
unfolding TimedBreaker.init LossGate.init le provider_init
evaluate_approved-day_example =
    evaluate_approved-day "HALT" (pos 2) (pos 1) (pos 2) half two_strikes last_two none desk runtime
      events request 400_000 500_000 result refl refl opened-KeepsRejections day_approves refl
