-- ===== src/Provider/Evaluate.antt =====
-- src/trade_risk_engine/provider.py: `RiskProvider.evaluate`, which asks the authority, reports the gates
-- and issues the receipt.

use verdict_risk.Prelude.{
  if◌then◌else◌, ℤ, pos, ℕ, ◌/◌, String, Bool, Option, none, some, List, [], ◌∷◌,
}
use verdict_risk.Py.Except.{Result, ◌>>=◌, ok}
use verdict_risk.Py.Float.{Float}
use verdict_risk.Py.Time.{Datetime}
use verdict_risk.State.{
  risk_state_schema_version, RiskContext, default_context, Position, RiskDecision, TradeOutcome,
}
use verdict_risk.Receipts.{
  Value, Fields, Items, ReceiptRequest, Receipt, hash_of, build_risk_receipt, string, real, whole,
  truth, null, mapping, sequence, scalar, no_fields, field, other_field, no_items, item,
}
use verdict_risk.Engine.Authority.{RiskAuthority, init}
use verdict_risk.Provider.Request.{RiskProviderRequest}
use verdict_risk.Provider.{GateOutcome, gate_report, decide}

-- What the code calls of Python: `not s.strip()`, `text.lower().replace("-", "_")`, `json.dumps` with
-- sorted keys, which may raise, the hex digest of a text, and `datetime.isoformat`.
pub record Runtime : Type 0 where
  pub is_blank : String → Bool
  pub normalize : String → String
  pub dumps : Value → Result String
  pub sha256 : String → String
  pub isoformat : Datetime → String

abbrev pub hash : Runtime → Value → Result String
hash runtime = hash_of runtime.dumps runtime.sha256

abbrev pub provider_api_version : ℤ
provider_api_version = pos 1

pub record RiskProviderResult : Type 0 where
  pub approved : Bool
  pub reason_code : String
  pub suggested_size : Float
  pub gate_outcomes : List GateOutcome
  pub state_schema_version : ℤ
  pub elapsed_us : ℕ
  pub receipt : Receipt
  pub api_version : ℤ

pub record RiskProvider : Type 0 where
  pub ctx : RiskContext
  pub authority : RiskAuthority

-- `x if x is not None else default`
abbrev pub or_default : {A : Type 0} → Option A → A → A
or_default none default = default
or_default (some a) default = a

-- `RiskProvider.__init__`
unfoldable pub provider_init : Option RiskContext → Option RiskAuthority → RiskProvider
provider_init ctx authority = record {
  ctx = or_default ctx default_context;
  authority = or_default authority (init none none none none);
}

abbrev pub items_of : {A : Type 0} → (A → Value) → List A → Items
items_of value_of [] = no_items
items_of value_of (a ∷ rest) = item (value_of a) (items_of value_of rest)

abbrev pub string_value : String → Value
string_value s = scalar (string s)

abbrev pub position_value : Position → Value
position_value p = mapping (
    field "ticker" (string_value p.ticker) (
      field "family" (string_value p.family) (
        field "cost_basis" (scalar (real p.cost_basis)) (
          field "current_value" (scalar (real p.current_value))
            (field "is_resolved" (scalar (truth p.is_resolved)) no_fields)))))

abbrev pub trade_outcome_value : (Datetime → String) → TradeOutcome → Value
trade_outcome_value isoformat o = mapping (
    field "timestamp" (string_value (isoformat o.timestamp))
      (field "pnl" (scalar (real o.pnl)) no_fields))

abbrev pub current_time_value : (Datetime → String) → Option Datetime → Value
current_time_value isoformat none = scalar null
current_time_value isoformat (some at) = string_value (isoformat at)

-- `dict(advisory) if advisory else None`: an empty mapping is false
abbrev pub advisory_value : Option Fields → Value
advisory_value none = scalar null
advisory_value (some no_fields) = scalar null
advisory_value (some (field key child rest)) = mapping (field key child rest)
advisory_value (some (other_field key child rest)) = mapping (other_field key child rest)

-- `inputs` of the receipt.
unfoldable pub inputs_of : (Datetime → String) → RiskProviderRequest → Value
inputs_of isoformat request = mapping (
    field "daily_realized_pnl" (scalar (real request.daily_realized_pnl)) (
      field "equity" (scalar (real request.equity)) (
        field "target_family" (string_value request.target_family) (
          field "proposed_cost" (scalar (real request.proposed_cost)) (
            field "expected_value" (scalar (real request.expected_value)) (
              field "open_positions" (sequence (items_of position_value request.open_positions)) (
                field "trade_outcomes"
                  (sequence (items_of (trade_outcome_value isoformat) request.trade_outcomes))
                  (field "current_time" (current_time_value isoformat request.current_time)
                    (field "advisory" (advisory_value request.advisory) no_fields)))))))))

-- `config` of the receipt.
unfoldable pub config_of : RiskContext → Value
config_of ctx = mapping (
    field "max_daily_drawdown_pct" (scalar (real ctx.max_daily_drawdown_pct)) (
      field "max_weekly_drawdown_pct" (scalar (real ctx.max_weekly_drawdown_pct)) (
        field "max_correlated_exposure" (scalar (real ctx.max_correlated_exposure)) (
          field "min_expected_value" (scalar (real ctx.min_expected_value)) (
            field "latency_budget_us" (scalar (whole ctx.latency_budget_us)) (
              field "consecutive_loss_limit" (scalar (whole ctx.consecutive_loss_limit)) (
                field "consecutive_loss_window_minutes"
                  (scalar (real ctx.consecutive_loss_window_minutes))
                  (field "state_schema_version" (scalar (whole risk_state_schema_version))
                    no_fields))))))))

abbrev pub gate_outcome_value : GateOutcome → Value
gate_outcome_value o = mapping (
    field "gate" (string_value o.gate) (
      field "approved" (scalar (truth o.approved))
        (field "reason_code" (string_value o.reason_code) no_fields)))

-- `details` of the receipt.
unfoldable pub details_of : Option Fields → String → List GateOutcome → Fields
details_of advisory reason_code gate_outcomes = field "advisory" (advisory_value advisory) (
    field "reason_code" (string_value reason_code) (
      field "gate_outcomes" (sequence (items_of gate_outcome_value gate_outcomes))
        (field "api_version" (scalar (whole provider_api_version)) no_fields)))

unfoldable pub receipt_request :
    (Datetime → String)
    → RiskContext
    → RiskProviderRequest
    → RiskDecision
    → List GateOutcome
    → ReceiptRequest
receipt_request isoformat ctx request decision gate_outcomes = record {
  run_id = request.run_id;
  inputs = inputs_of isoformat request;
  config = config_of ctx;
  outcome = if decision.approved then "approved" else "rejected";
  evidence_refs = [];
  provenance = none;
  details = some (details_of request.advisory decision.reason_code gate_outcomes);
}

-- What follows the decision: the report, the receipt and the result.
unfoldable pub conclude :
    Runtime → RiskContext → RiskProviderRequest → ℕ → RiskDecision → Result RiskProviderResult
conclude runtime ctx request total_ns decision = do
  gate_outcomes ← gate_report ctx request
  receipt ←
      build_risk_receipt runtime.is_blank runtime.normalize (hash runtime)
        (receipt_request runtime.isoformat ctx request decision gate_outcomes)
  ok (record {
    approved = decision.approved;
    reason_code = decision.reason_code;
    suggested_size = decision.suggested_size;
    gate_outcomes = gate_outcomes;
    state_schema_version = risk_state_schema_version;
    elapsed_us = total_ns / 1000;
    receipt = receipt;
    api_version = provider_api_version;
  })

-- What a call leaves: the provider, the result or exception, and the decisions that were handed to the
-- authority's callback.
pub record ProviderEvaluation : Type 0 where
  pub provider : RiskProvider
  pub answer : Result RiskProviderResult
  pub calls : List RiskDecision

-- `RiskProvider.evaluate`. The two times are the differences of the clock's readings that the engine and
-- the provider take.
unfoldable pub evaluate : Runtime → RiskProvider → RiskProviderRequest → ℕ → ℕ → ProviderEvaluation
evaluate runtime provider request elapsed_ns total_ns =
    let decided = decide provider.authority provider.ctx request elapsed_ns in
    record {
      provider = record provider { authority = decided.authority };
      answer = decided.answer >>= conclude runtime provider.ctx request total_ns;
      calls = decided.calls;
    }
