-- ===== src/Provider/Tests.antt =====
-- The theorems about the provider at concrete inputs.

use verdict_risk.Prelude.{
  ◌==◌, if◌then◌else◌, ◌-ℤ◌, ◌≤ℤ◌, pos, ◌/◌, String, ◌≡◌, refl, sym, ap, ◌∙◌, subst, ◌↔◌, inl, inr,
  Option, none, some, List, map, arith,
}
use verdict_risk.Py.Except.{ok}
use verdict_risk.Py.Float.{
  is_nan, is_inf, is_finite, lt, le, magnitude, round, neg, add, mul, div, of_ratio,
}
use verdict_risk.Py.Number.{of_int, no_overflow, to_float, int, float}
use verdict_risk.Py.Time.{Datetime, instant, total_seconds}
use verdict_risk.State.{new_decision}
use verdict_risk.Gates.Verdict.{timezone_mode}
use verdict_risk.Gates.Drawdown.{evaluate_drawdown}
use verdict_risk.Gates.Concentration.{counts_toward, exposure_from, evaluate_concentration}
use verdict_risk.Gates.ExpectedValue.{evaluate_expected_value}
use verdict_risk.Gates.LossWindow.{
  modes_of, sort_outcomes, count_losses, evaluate_consecutive_losses,
}
use verdict_risk.Py.Format.{join}
use verdict_risk.Receipts.{
  Fields, is_sensitive, reject_sensitive, reject_fields, reject_items, hash_of, build_risk_receipt,
  string, scalar, no_fields, field,
}
use verdict_risk.Engine.Chain.{
  then_gate, check_latency, check_cluster, run_gates, evaluate_stateless,
}
use verdict_risk.Engine.Authority.{
  RiskAuthority, delegate, pass_loss_gate, pass_timed_breaker, pass_kill_switch,
  evaluate_with_state,
}
use verdict_risk.Engine.Authority.Stateful.{
  KeepsRejections, KillSwitchPasses, TimedBreakerPasses, LossGatePasses,
}
use verdict_risk.Provider.Request.{
  require_finite, require_identifier, require_items, require_tuple_of, RequestArguments,
  RiskProviderRequest, request_init, number, str, list_of, tuple_of, position, trade_outcome,
  datetime, mapping_of, end, argument,
}
use verdict_risk.Provider.{GateOutcome, report_gate, stateless_gates, gate_report, decide}
use verdict_risk.Provider.Agreement.{AllApproved, decide-gate_report}
use verdict_risk.Provider.Boundary.{Describes, request_init_iff}
use verdict_risk.Provider.Evaluate.{
  Runtime, RiskProviderResult, RiskProvider, inputs_of, config_of, details_of, receipt_request,
  conclude, evaluate,
}
use verdict_risk.Provider.Advisory.{SameDecision, Agree, evaluate_advisory, evaluate_approved}
use verdict_risk.Provider.Returns.{HintsHarmless, Dumps, evaluate_returns_iff}
use verdict_risk.Provider.Audit.{IsWritten, TellsApart, evaluate-receipts}
use verdict_risk.Provider.Samples.{request, runtime, report, result}
use verdict_risk.Tests.Data.{
  dollars, minus_dollars, clock, desk, held, early_loss, late_loss, fresh,
}
use text.Mathlib.Text.{◌==◌ as str_eq}

abbrev authority : RiskAuthority
authority = record {
  kill_switch = none;
  timed_breaker = none;
  consecutive_loss_gate = none;
  on_trip = none;
  last_trip_reason = none;
}

decide-gate_report_example :
    (report : List GateOutcome) × (gate_report desk request ≡ ok report)
    × (((decide authority desk request 400_000).answer ≡ ok fresh)
        ↔ (AllApproved report × (pos (400_000 / 1000) ≤ℤ pos 500)))
    × (map (λ (o : GateOutcome). o.gate) report ≡ stateless_gates)
unfolding is_finite
decide-gate_report_example = decide-gate_report authority desk request 400_000 refl refl refl refl

abbrev arguments : RequestArguments
arguments = record {
  run_id = str "run-1";
  daily_realized_pnl = number (float (minus_dollars 8));
  equity = number (int (pos 1000));
  target_family = str "weather";
  proposed_cost = number (int (pos 20));
  expected_value = number (float (dollars 1));
  open_positions = list_of (argument (position held) end);
  trade_outcomes =
      tuple_of (argument (trade_outcome late_loss) (argument (trade_outcome early_loss) end));
  current_time = datetime (clock 720);
  advisory = mapping_of "dict" (field "hint" (scalar (string "hold")) no_fields);
}

abbrev provider : RiskProvider
provider = record { ctx = desk; authority = authority }

arguments_accepted : request_init runtime.is_blank arguments ≡ ok request
unfolding request_init require_finite require_identifier require_tuple_of require_items to_float
    of_int no_overflow of_ratio round magnitude is_finite
arguments_accepted = refl

request_init_iff_example :
    (request_init runtime.is_blank arguments ≡ ok request)
    ↔ Describes runtime.is_blank arguments request
request_init_iff_example = request_init_iff runtime.is_blank arguments request

-- A hint that asks for the key of an account.
abbrev leak : Option Fields
leak = some (field "Api-Key" (scalar (string "x")) no_fields)

evaluate_advisory_example :
    let one = evaluate runtime provider request 400_000 500_000 in
    let two = evaluate runtime provider (record request { advisory = leak }) 400_000 500_000 in
    (one.provider ≡ two.provider) × (one.calls ≡ two.calls) × Agree one.answer two.answer
evaluate_advisory_example = evaluate_advisory runtime provider request leak 400_000 500_000

evaluate_returns_iff_example :
    ((result : RiskProviderResult) × ((evaluate runtime provider request 400_000 500_000).answer
        ≡ ok result))
    ↔ (HintsHarmless runtime.normalize request.advisory
        × Dumps runtime (inputs_of runtime.isoformat request)
        × Dumps runtime (config_of desk))
evaluate_returns_iff_example =
    evaluate_returns_iff runtime provider arguments request 400_000 500_000
      (refl, refl, (refl, (refl, (refl, (refl, (refl, (refl, tt))))))) refl refl refl
      arguments_accepted

provider_approves : (evaluate runtime provider request 400_000 500_000).answer ≡ ok result
unfolding evaluate conclude decide gate_report report_gate build_risk_receipt hash_of join
    receipt_request details_of reject_sensitive reject_fields reject_items is_sensitive
    evaluate_with_state pass_kill_switch pass_timed_breaker pass_loss_gate delegate
    evaluate_stateless new_decision is_finite run_gates then_gate evaluate_expected_value
    evaluate_drawdown evaluate_consecutive_losses evaluate_concentration check_cluster check_latency
    counts_toward exposure_from is_nan is_inf lt le add mul div round magnitude neg modes_of
    timezone_mode sort_outcomes count_losses total_seconds instant ◌-ℤ◌
provider_approves = refl

provider-KeepsRejections : KeepsRejections authority
provider-KeepsRejections callback d e h = ground arith

evaluate_approved_example :
    KillSwitchPasses none
    × TimedBreakerPasses none fresh (some (clock 720))
    × LossGatePasses none fresh
    × AllApproved report
    × (pos (400_000 / 1000) ≤ℤ pos 500)
    × (dollars 20 ≡ dollars 20)
evaluate_approved_example =
    evaluate_approved runtime provider request 400_000 500_000 result provider-KeepsRejections
      provider_approves refl

-- The same proposal in another run, and the report of it.
abbrev rerun : RiskProviderRequest
rerun = record request { run_id = "run-2" }

abbrev rerun_result : RiskProviderResult
rerun_result = record result { receipt = record result.receipt { run_id = "run-2" } }

-- The times of the proposal, written and read.
abbrev written_time : Datetime → String
written_time at =
    if at.ticks == 43_200_000_000
    then "12:00"
    else if at.ticks == 42_600_000_000
    then "11:50"
    else "11:40"

abbrev read_time : String → Datetime
read_time s =
    if str_eq s "12:00" then clock 720 else if str_eq s "11:50" then clock 710 else clock 700

abbrev wall_clock : Runtime
wall_clock = record runtime { isoformat = written_time }

read_back : (a : Datetime) → IsWritten a request → read_time (written_time a) ≡ a
read_back a (inl (inl late)) = subst (λ b. read_time (written_time b) ≡ b) late refl
read_back a (inl (inr (inl early))) = subst (λ b. read_time (written_time b) ≡ b) early refl
read_back a (inl (inr (inr none_left))) = absurd none_left
read_back a (inr now) =
    let same : clock 720 ≡ a = cc in subst (λ b. read_time (written_time b) ≡ b) same refl

times_told : TellsApart written_time request rerun
times_told a b w v e = sym (read_back a w) ∙ ap read_time e ∙ read_back b v

first_run : (evaluate wall_clock provider request 400_000 500_000).answer ≡ ok result
unfolding evaluate conclude decide gate_report report_gate build_risk_receipt hash_of join
    receipt_request details_of reject_sensitive reject_fields reject_items is_sensitive
    evaluate_with_state pass_kill_switch pass_timed_breaker pass_loss_gate delegate
    evaluate_stateless new_decision is_finite run_gates then_gate evaluate_expected_value
    evaluate_drawdown evaluate_consecutive_losses evaluate_concentration check_cluster check_latency
    counts_toward exposure_from is_nan is_inf lt le add mul div round magnitude neg modes_of
    timezone_mode sort_outcomes count_losses total_seconds instant ◌-ℤ◌
first_run = refl

second_run :
    (evaluate wall_clock provider rerun 400_000 600_000).answer
    ≡ ok (record rerun_result { elapsed_us = 600 })
unfolding evaluate conclude decide gate_report report_gate build_risk_receipt hash_of join
    receipt_request details_of reject_sensitive reject_fields reject_items is_sensitive
    evaluate_with_state pass_kill_switch pass_timed_breaker pass_loss_gate delegate
    evaluate_stateless new_decision is_finite run_gates then_gate evaluate_expected_value
    evaluate_drawdown evaluate_consecutive_losses evaluate_concentration check_cluster check_latency
    counts_toward exposure_from is_nan is_inf lt le add mul div round magnitude neg modes_of
    timezone_mode sort_outcomes count_losses total_seconds instant ◌-ℤ◌
second_run = refl

evaluate-receipts_example : SameDecision result (record rerun_result { elapsed_us = 600 })
unfolding inputs_of
evaluate-receipts_example =
    evaluate-receipts wall_clock provider provider request rerun 400_000 500_000 600_000 result
      (record rerun_result { elapsed_us = 600 }) times_told (λ h e e'. refl) (λ h e e'. refl) refl
      first_run second_run refl refl
