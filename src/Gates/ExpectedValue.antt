-- ===== src/Gates/ExpectedValue.antt =====
-- `evaluate_expected_value`: the smallest expected value that is traded.
use verdict_risk.Prelude.{if◌then◌else◌, ◌||◌, [], ◌∷◌}
use verdict_risk.Py.Float.{Float, is_nan, is_inf, lt}
use verdict_risk.Py.Format.{join, repr}
use verdict_risk.State.{RiskContext, RiskDecision}
use verdict_risk.Gates.Verdict.{Verdict, reject, pass}

unfoldable pub evaluate_expected_value : RiskContext → Float → RiskDecision → Verdict
evaluate_expected_value ctx expected_value decision =
    if is_nan expected_value
      || is_inf expected_value
      || is_nan ctx.min_expected_value
      || is_inf ctx.min_expected_value
    then reject decision "ERR_INVALID_FLOAT_EXPECTED_VALUE"
    else if lt expected_value ctx.min_expected_value
    then reject decision (
        join (
          "ERR_EXPECTED_VALUE: "
          ∷ repr expected_value
          ∷ " is below minimum "
          ∷ repr ctx.min_expected_value
          ∷ []))
    else pass decision
