-- ===== src/Provider/Samples.antt =====
-- A request and its result, for the tests.
use verdict_risk.Prelude.{if◌then◌else◌, pos, String, true, some, List, [], ◌∷◌}
use verdict_risk.Py.Except.{ok}
use verdict_risk.Receipts.{string, scalar, no_fields, field}
use verdict_risk.Provider.Request.{RiskProviderRequest}
use verdict_risk.Provider.{GateOutcome}
use verdict_risk.Provider.Evaluate.{Runtime, RiskProviderResult, details_of}
use verdict_risk.Tests.Data.{dollars, minus_dollars, clock, held, early_loss, late_loss}
use text.Mathlib.Text.{◌==◌ as str_eq}

abbrev pub request : RiskProviderRequest
request = record {
  run_id = "run-1";
  daily_realized_pnl = minus_dollars 8;
  equity = dollars 1000;
  target_family = "weather";
  proposed_cost = dollars 20;
  expected_value = dollars 1;
  open_positions = held ∷ [];
  trade_outcomes = late_loss ∷ early_loss ∷ [];
  current_time = some (clock 720);
  advisory = some (field "hint" (scalar (string "hold")) no_fields);
}

abbrev pub runtime : Runtime
runtime = record {
  is_blank = λ s. str_eq s "";
  normalize = λ key. if str_eq key "Api-Key" then "api_key" else key;
  dumps = λ v. ok "{}";
  sha256 = λ s. "0";
  isoformat = λ at. "2026-01-05T12:00:00";
}

abbrev pub passed : String → GateOutcome
passed name = record { gate = name; approved = true; reason_code = "OK" }

abbrev pub report : List GateOutcome
report =
    passed "evaluate_expected_value"
    ∷ passed "evaluate_drawdown"
    ∷ passed "evaluate_consecutive_losses"
    ∷ passed "evaluate_concentration"
    ∷ []

abbrev pub result : RiskProviderResult
result = record {
  approved = true;
  reason_code = "OK";
  suggested_size = dollars 20;
  gate_outcomes = report;
  state_schema_version = pos 1;
  elapsed_us = 500;
  receipt = record {
    schema_version = "1";
    run_id = "run-1";
    provider = "verdict-risk";
    provider_version = "0.1.0";
    inputs_hash = "sha256:0";
    config_hash = "sha256:0";
    outcome = "approved";
    provenance = no_fields;
    evidence_refs = [];
    details = details_of request.advisory "OK" report;
  };
  api_version = pos 1;
}
