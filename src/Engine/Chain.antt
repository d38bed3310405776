-- ===== src/Engine/Chain.antt =====
-- `_evaluate_stateless`, which is also `RiskAuthority.evaluate_trade`: the pure gates in order, each
-- of which may end the evaluation.
pub mod Approval
pub mod Answer
pub mod Monotone
use verdict_risk.Prelude.{
  if◌then◌else◌, ltb_ℤ, pos, ℕ, ◌/◌, String, true, false, not, Option, none, some, List, [], ◌∷◌,
}
use verdict_risk.Py.Except.{Result, ◌>>=◌, ok, err}
use verdict_risk.Py.Float.{Float}
use verdict_risk.Py.Time.{Datetime}
use verdict_risk.Py.Format.{join, str_nat, str_int}
use verdict_risk.State.{RiskContext, Position, RiskDecision, new_decision, TradeOutcome}
use verdict_risk.Gates.Verdict.{Verdict, rejected, reject, pass}
use verdict_risk.Gates.Drawdown.{evaluate_drawdown}
use verdict_risk.Gates.Concentration.{evaluate_concentration}
use verdict_risk.Gates.ExpectedValue.{evaluate_expected_value}
use verdict_risk.Gates.ClusterCap.{ClusterCapContext, evaluate_cluster_cap}
use verdict_risk.Gates.LossWindow.{evaluate_consecutive_losses}

-- The arguments of `evaluate_trade` after `ctx`.
pub record Trade : Type 0 where
  pub daily_realized_pnl : Float
  pub equity : Float
  pub target_family : String
  pub proposed_cost : Float
  pub open_positions : List Position
  pub expected_value : Float
  pub trade_outcomes : Option (List TradeOutcome)
  pub current_time : Option Datetime
  pub cluster_cap_ctx : Option ClusterCapContext

-- `if not _run_gate(...): return decision`
unfoldable pub then_gate : Verdict → (RiskDecision → Result RiskDecision) → Result RiskDecision
then_gate (err e) next = err e
then_gate (ok (decision, true)) next = next decision
then_gate (ok (decision, false)) next = ok decision

-- The last test, of the time taken, on the difference of two readings of `perf_counter_ns`.
unfoldable pub check_latency : RiskContext → ℕ → RiskDecision → RiskDecision
check_latency ctx elapsed_ns decision =
    let elapsed_us = elapsed_ns / 1000 in
    if ltb_ℤ ctx.latency_budget_us (pos elapsed_us)
    then (rejected decision (
        join (
          "ERR_LATENCY_BUDGET: evaluation took "
          ∷ str_nat elapsed_us
          ∷ "us (limit "
          ∷ str_int ctx.latency_budget_us
          ∷ "us)"
          ∷ []))).0
    else decision

-- `if cluster_cap_ctx is not None: ...`
unfoldable pub check_cluster : Option ClusterCapContext → RiskDecision → Verdict
check_cluster none decision = pass decision
check_cluster (some cluster) decision = evaluate_cluster_cap cluster >>= λ answer.
    if not answer.approved then reject decision answer.reason_code else pass decision

-- The gates on the fresh decision.
unfoldable pub run_gates : RiskContext → Trade → ℕ → RiskDecision → Result RiskDecision
run_gates ctx trade elapsed_ns decision =
    then_gate (evaluate_expected_value ctx trade.expected_value decision) λ decision.
      then_gate (evaluate_drawdown ctx trade.daily_realized_pnl trade.equity decision) λ decision.
        then_gate (evaluate_consecutive_losses ctx trade.trade_outcomes trade.current_time decision)
          λ decision.
            then_gate
              (evaluate_concentration ctx trade.target_family trade.proposed_cost
                trade.open_positions decision)
              λ decision.
                then_gate (check_cluster trade.cluster_cap_ctx decision)
                  λ decision. ok (check_latency ctx elapsed_ns decision)

unfoldable pub evaluate_stateless : RiskContext → Trade → ℕ → Result RiskDecision
evaluate_stateless ctx trade elapsed_ns =
    new_decision true "OK" trade.proposed_cost >>= run_gates ctx trade elapsed_ns
