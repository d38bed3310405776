-- ===== src/Gates/ClusterCap.antt =====
-- `ClusterCapContext` and `evaluate_cluster_cap`: a ceiling on the open dollars of a cluster.
use verdict_risk.Prelude.{if◌then◌else◌, String, true, false, [], ◌∷◌}
use verdict_risk.Py.Except.{Result}
use verdict_risk.Py.Float.{Float, lt, le, add, zero_float}
use verdict_risk.Py.Format.{join, repr}
use verdict_risk.State.{RiskDecision, new_decision}
use text.Mathlib.Text.{◌==◌ as str_eq}

pub record ClusterCapContext : Type 0 where
  pub cluster_id : String
  pub cluster_open_usd : Float
  pub proposed_cost : Float
  pub max_cluster_usd : Float

unfoldable pub evaluate_cluster_cap : ClusterCapContext → Result RiskDecision
unfolding new_decision
evaluate_cluster_cap ctx =
    if str_eq ctx.cluster_id "unknown"
    then new_decision true "OK" ctx.proposed_cost
    else if le ctx.proposed_cost zero_float
    then new_decision true "OK" ctx.proposed_cost
    else if le ctx.max_cluster_usd zero_float
    then new_decision false
        (join (
          "ERR_CLUSTER_CAP: max_cluster_usd=" ∷ repr ctx.max_cluster_usd ∷ " is not positive" ∷ []))
        zero_float
    else if lt ctx.max_cluster_usd (add ctx.cluster_open_usd ctx.proposed_cost)
    then new_decision false
        (join (
          "ERR_CLUSTER_CAP: "
          ∷ ctx.cluster_id
          ∷ " exposure "
          ∷ repr (add ctx.cluster_open_usd ctx.proposed_cost)
          ∷ " would exceed "
          ∷ repr ctx.max_cluster_usd
          ∷ []))
        zero_float
    else new_decision true "OK" ctx.proposed_cost
