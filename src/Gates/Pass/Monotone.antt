-- ===== src/Gates/Pass/Monotone.antt =====
-- A gate that lets a trade through lets a safer one through: floats are rounded, and rounding keeps the
-- order.

use verdict_risk.Gates.Concentration.{evaluate_concentration}
use verdict_risk.Gates.ExpectedValue.{evaluate_expected_value}
use verdict_risk.Gates.Drawdown.{evaluate_drawdown}
use verdict_risk.Gates.Verdict.{pass}
use verdict_risk.State.{RiskContext, Position, RiskDecision}
use verdict_risk.Py.Float.{
  Float, le_trans, is_nan, is_finite, le, quotient_mono, add_mono, quotient, neg, add, zero_float,
}
use verdict_risk.Prelude.{String, ◌≡◌, refl, true, List}
use verdict_risk.Gates.Pass.{
  evaluate_expected_value_iff, evaluate_drawdown_iff, family_costs, sum_from, not_nan-sum_from,
  evaluate_concentration_iff,
}

-- A higher value, finite, passes where a lower one does.
pub evaluate_expected_value_mono :
    (ctx : RiskContext) (ev better : Float) (d : RiskDecision)
    → is_finite better ≡ true
    → le ev better ≡ true
    → evaluate_expected_value ctx ev d ≡ pass d
    → evaluate_expected_value ctx better d ≡ pass d
evaluate_expected_value_mono ctx ev better d h l p =
    let (fin, fin_min, above) = (evaluate_expected_value_iff ctx ev d).0 p in
    (evaluate_expected_value_iff ctx better d).1
      (h, fin_min, le_trans ctx.min_expected_value ev better above l)

-- A better result of the day, finite, passes where a worse one does.
pub evaluate_drawdown_mono :
    (ctx : RiskContext) (pnl better equity : Float) (d : RiskDecision)
    → is_finite better ≡ true
    → le pnl better ≡ true
    → evaluate_drawdown ctx pnl equity d ≡ pass d
    → evaluate_drawdown ctx better equity d ≡ pass d
evaluate_drawdown_mono ctx pnl better equity d h l p =
    let (fin_equity, fin_pnl, fin_limit, positive, above) =
      (evaluate_drawdown_iff ctx pnl equity d).0 p in
    (evaluate_drawdown_iff ctx better equity d).1 (
      fin_equity,
      h,
      fin_limit,
      positive,
      le_trans (neg ctx.max_daily_drawdown_pct) (quotient pnl equity) (quotient better equity) above
          (quotient_mono pnl better equity fin_pnl h fin_equity positive l),
    )

-- A smaller cost, finite, passes where a greater one does.
pub evaluate_concentration_mono :
    (ctx : RiskContext) (family : String) (cost smaller : Float) (ps : List Position)
    (d : RiskDecision)
    → is_finite smaller ≡ true
    → le smaller cost ≡ true
    → evaluate_concentration ctx family cost ps d ≡ pass d
    → evaluate_concentration ctx family smaller ps d ≡ pass d
unfolding is_nan
evaluate_concentration_mono ctx family cost smaller ps d h l p =
    let total = sum_from zero_float (family_costs family ps) in
    let (fin_cost, fin_limit, fin_costs, below) =
      (evaluate_concentration_iff ctx family cost ps d).0 p in
    let num = not_nan-sum_from zero_float (family_costs family ps) refl fin_costs in
    (evaluate_concentration_iff ctx family smaller ps d).1 (
      h,
      fin_limit,
      fin_costs,
      le_trans (add total smaller) (add total cost) ctx.max_correlated_exposure
          (add_mono smaller cost total h fin_cost num l) below,
    )
