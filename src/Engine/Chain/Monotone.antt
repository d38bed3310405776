-- ===== src/Engine/Chain/Monotone.antt =====
-- The chain keeps its approval of a trade when the figures that it judges get better.
use verdict_risk.Engine.Chain.Approval.{evaluate_stateless_iff}
use verdict_risk.Gates.Pass.Monotone.{evaluate_expected_value_mono, evaluate_drawdown_mono}
use verdict_risk.Gates.Pass.{approval}
use verdict_risk.State.{RiskContext}
use verdict_risk.Py.Float.{Float, is_finite, le}
use verdict_risk.Py.Except.{ok}
use verdict_risk.Prelude.{◌≤ℤ◌, pos, ℕ, ◌/◌, ◌≤◌, ◌≡◌, true, arith}
use verdict_risk.Engine.Chain.{Trade, evaluate_stateless}

-- What the chain approves it still approves with a result of the day and an expected value that
-- are finite and no less, and in no more time.
pub evaluate_stateless_mono :
    (ctx : RiskContext) (trade : Trade) (better_pnl better_value : Float) (ns sooner : ℕ)
    → is_finite trade.proposed_cost ≡ true
    → is_finite better_pnl ≡ true
    → is_finite better_value ≡ true
    → le trade.daily_realized_pnl better_pnl ≡ true
    → le trade.expected_value better_value ≡ true
    → sooner ≤ ns
    → evaluate_stateless ctx trade ns ≡ ok (approval trade.proposed_cost)
    → evaluate_stateless ctx
        (record trade { daily_realized_pnl = better_pnl; expected_value = better_value })
        sooner
      ≡ ok (approval trade.proposed_cost)
evaluate_stateless_mono ctx trade better_pnl better_value ns sooner c f g l m s a =
    let d = approval trade.proposed_cost in
    let trade' = record trade { daily_realized_pnl = better_pnl; expected_value = better_value } in
    let (value, drawdown, losses, concentration, cluster, late) =
      (evaluate_stateless_iff ctx trade ns c).0 a in
    (evaluate_stateless_iff ctx trade' sooner c).1 (
      evaluate_expected_value_mono ctx trade.expected_value better_value d g m value,
      evaluate_drawdown_mono ctx trade.daily_realized_pnl better_pnl trade.equity d f l drawdown,
      losses,
      concentration,
      cluster,
      in_time late,
    )
  where
    in_time :
        pos (ns / 1000) ≤ℤ ctx.latency_budget_us → pos (sooner / 1000) ≤ℤ ctx.latency_budget_us
    in_time h = omega arith
