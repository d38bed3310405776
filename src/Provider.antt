-- ===== src/Provider.antt =====
-- src/trade_risk_engine/provider.py: the report of the pure gates, and the decision that the provider
-- takes from the authority.
pub mod Request
pub mod Evaluate
pub mod Arguments
pub mod Boundary
pub mod Advisory
pub mod Returns
pub mod Agreement
pub mod Audit
pub mod Desk
pub mod Samples
mod Tests
use verdict_risk.Engine.Authority.{RiskAuthority, Evaluation, evaluate_with_state}
use verdict_risk.Engine.Chain.{Trade}
use verdict_risk.Gates.LossWindow.{evaluate_consecutive_losses}
use verdict_risk.Gates.ExpectedValue.{evaluate_expected_value}
use verdict_risk.Gates.Concentration.{evaluate_concentration}
use verdict_risk.Gates.Drawdown.{evaluate_drawdown}
use verdict_risk.Gates.Verdict.{Verdict}
use verdict_risk.Provider.Request.{RiskProviderRequest}
use verdict_risk.State.{RiskContext, Position, RiskDecision, new_decision, TradeOutcome}
use verdict_risk.Py.Time.{Datetime}
use verdict_risk.Py.Float.{Float}
use verdict_risk.Prelude.{ℕ, String, Bool, true, Option, none, some, List, [], ◌∷◌}
use verdict_risk.Py.Except.{Result, ◌>>=◌, ◌>>◌, ok}

pub record GateOutcome : Type 0 where
  pub gate : String
  pub approved : Bool
  pub reason_code : String

-- One turn of the loop: a gate on a fresh decision, of which it keeps what the gate left.
unfoldable pub report_gate : String → Float → (RiskDecision → Verdict) → Result GateOutcome
report_gate name proposed_cost gate = new_decision true "OK" proposed_cost >>= λ scratch.
    gate scratch >>= λ (after, go).
    ok (record { gate = name; approved = after.approved; reason_code = after.reason_code })

-- `_STATELESS_GATES`, the order of the report.
abbrev pub stateless_gates : List String
stateless_gates =
    "evaluate_expected_value" ∷ "evaluate_drawdown" ∷ "evaluate_consecutive_losses"
    ∷ "evaluate_concentration" ∷ []

-- `_gate_report`
unfoldable pub gate_report : RiskContext → RiskProviderRequest → Result (List GateOutcome)
unfolding report_gate
gate_report ctx request = do
  ev ←
      report_gate "evaluate_expected_value" request.proposed_cost
        (evaluate_expected_value ctx request.expected_value)
  drawdown ←
      report_gate "evaluate_drawdown" request.proposed_cost
        (evaluate_drawdown ctx request.daily_realized_pnl request.equity)
  losses ←
      report_gate "evaluate_consecutive_losses" request.proposed_cost
        (evaluate_consecutive_losses ctx (some request.trade_outcomes) request.current_time)
  concentration ← report_gate "evaluate_concentration" request.proposed_cost (
      evaluate_concentration ctx request.target_family request.proposed_cost request.open_positions)
  ok (ev ∷ drawdown ∷ losses ∷ concentration ∷ [])

-- `list(request.trade_outcomes) or None`
abbrev pub or_none : List TradeOutcome → Option (List TradeOutcome)
or_none [] = none
or_none (o ∷ os) = some (o ∷ os)

-- The arguments that `evaluate` hands to the authority.
abbrev pub trade_of : RiskProviderRequest → Trade
trade_of request = record {
  daily_realized_pnl = request.daily_realized_pnl;
  equity = request.equity;
  target_family = request.target_family;
  proposed_cost = request.proposed_cost;
  open_positions = request.open_positions;
  expected_value = request.expected_value;
  trade_outcomes = or_none request.trade_outcomes;
  current_time = request.current_time;
  cluster_cap_ctx = none;
}

-- The authoritative decision of `evaluate`, on which its report and its receipt follow.
unfoldable pub decide : RiskAuthority → RiskContext → RiskProviderRequest → ℕ → Evaluation
decide authority ctx request elapsed_ns =
    evaluate_with_state authority ctx (trade_of request) elapsed_ns
