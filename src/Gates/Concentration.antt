-- ===== src/Gates/Concentration.antt =====
-- `evaluate_concentration`: the open exposure in one family.
use verdict_risk.Prelude.{
  if◌then◌else◌, String, Bool, not, ◌&&◌, ◌||◌, Option, none, some, List, [], ◌∷◌,
}
use verdict_risk.Py.Float.{Float, is_nan, is_inf, lt, add, zero_float}
use verdict_risk.Py.Format.{join, repr}
use verdict_risk.State.{RiskContext, Position, RiskDecision}
use verdict_risk.Gates.Verdict.{Verdict, reject, pass, is_bad}
use text.Mathlib.Text.{◌==◌ as str_eq}

-- `not pos.is_resolved and pos.family == target_family`
unfoldable pub counts_toward : String → Position → Bool
counts_toward target_family p = not p.is_resolved && str_eq p.family target_family

-- The loop: the exposure so far, or none at a cost that is NaN or infinite.
unfoldable pub exposure_from : String → Float → List Position → Option Float
unfolding counts_toward
exposure_from target_family current [] = some current
exposure_from target_family current (p ∷ rest) =
    let skipped = exposure_from target_family current rest in
    let added = exposure_from target_family (add current p.cost_basis) rest in
    if counts_toward target_family p then if is_bad p.cost_basis then none else added else skipped

unfoldable pub evaluate_concentration :
    RiskContext → String → Float → List Position → RiskDecision → Verdict
unfolding exposure_from
evaluate_concentration ctx target_family proposed_cost open_positions decision =
    if is_nan proposed_cost
      || is_inf proposed_cost
      || is_nan ctx.max_correlated_exposure
      || is_inf ctx.max_correlated_exposure
    then reject decision "ERR_INVALID_FLOAT_CONCENTRATION"
    else elim (exposure_from target_family zero_float open_positions) [
      | none ↦ reject decision "ERR_INVALID_FLOAT_CONCENTRATION"
      | some current_exposure ↦
          if lt ctx.max_correlated_exposure (add current_exposure proposed_cost)
          then reject decision (
              join (
                "ERR_CONCENTRATION: "
                ∷ target_family
                ∷ " exposure would exceed "
                ∷ repr ctx.max_correlated_exposure
                ∷ []))
          else pass decision
    ]
