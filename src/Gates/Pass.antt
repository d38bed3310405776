-- ===== src/Gates/Pass.antt =====
-- When the pure gates of gates.py let a trade through.

pub mod Monotone
use verdict_risk.Gates.ClusterCap.{ClusterCapContext, evaluate_cluster_cap}
use verdict_risk.Gates.Concentration.{counts_toward, exposure_from, evaluate_concentration}
use verdict_risk.Gates.Verdict.{pass}
use verdict_risk.State.{RiskContext, Position, RiskDecision}
use verdict_risk.Py.Float.{
  Float, nan, is_finite-eq, is_nan_of_finite, lt-eq-not-le, lt_nan, nan_lt, nan_le, lt-not_le,
  is_nan, is_finite, lt, le, nan_add, not_nan-neg, not_nan-add, not_nan-quotient, quotient, div_pos,
  neg, add, div, zero_float,
}
use verdict_risk.Py.Except.{Result, ◌>>=◌, ok}
use verdict_risk.Prelude.{
  if◌then◌else◌, not, ◌&&◌, Option-cases, All, String, ◌≡◌, refl, ◌↔◌, ◌⊎◌, inl, inr, true, false,
  some, List, [], ◌∷◌, arith,
}
use verdict_risk.Gates.Drawdown.{compare_drawdown, evaluate_drawdown}
use verdict_risk.Gates.ExpectedValue.{evaluate_expected_value}
use text.Mathlib.Text.{◌==◌ as str_eq}

-- A trade passes exactly when the value and the minimum are finite and the value is not below the
-- minimum.
pub evaluate_expected_value_iff :
    (ctx : RiskContext) (ev : Float) (d : RiskDecision)
    → (evaluate_expected_value ctx ev d ≡ pass d) ↔ (
        (is_finite ev ≡ true)
        × (is_finite ctx.min_expected_value ≡ true)
        × (le ctx.min_expected_value ev ≡ true))
unfolding evaluate_expected_value
evaluate_expected_value_iff ctx ev d = ground (
  arith,
  is_finite-eq ev,
  is_finite-eq ctx.min_expected_value,
  lt-eq-not-le ev ctx.min_expected_value,
)

compare_drawdown_iff :
    (ctx : RiskContext) (d : RiskDecision) (v : Result Float) (q : Float)
    → v ≡ ok q
    → is_nan q ≡ false
    → is_nan ctx.max_daily_drawdown_pct ≡ false
    → ((v >>= compare_drawdown ctx d) ≡ pass d) ↔ (le (neg ctx.max_daily_drawdown_pct) q ≡ true)
unfolding compare_drawdown
compare_drawdown_iff ctx d v q e h k = rw e (
    ground (
      arith,
      lt-eq-not-le q (neg ctx.max_daily_drawdown_pct) h (not_nan-neg ctx.max_daily_drawdown_pct k),
    ))

-- A trade passes exactly when the three numbers are finite, the equity is positive, and the day's
-- result over the equity, as a float division, is at least minus the limit.
pub evaluate_drawdown_iff :
    (ctx : RiskContext) (pnl equity : Float) (d : RiskDecision)
    → (evaluate_drawdown ctx pnl equity d ≡ pass d) ↔ (
        (is_finite equity ≡ true)
        × (is_finite pnl ≡ true)
        × (is_finite ctx.max_daily_drawdown_pct ≡ true)
        × (lt zero_float equity ≡ true)
        × (le (neg ctx.max_daily_drawdown_pct) (quotient pnl equity) ≡ true))
unfolding evaluate_drawdown is_nan
evaluate_drawdown_iff ctx pnl equity d = ground (
  arith,
  is_finite-eq equity,
  is_finite-eq pnl,
  is_finite-eq ctx.max_daily_drawdown_pct,
  lt-eq-not-le zero_float equity refl,
  div_pos pnl equity,
  not_nan-quotient pnl equity,
  compare_drawdown_iff ctx d (div pnl equity) (quotient pnl equity),
)

-- The specification of the loop: the costs that count, and their sum from the left.
abbrev pub family_costs : String → List Position → List Float
family_costs family [] = []
family_costs family (p ∷ ps) =
    let rest = family_costs family ps in
    if not p.is_resolved && str_eq p.family family then p.cost_basis ∷ rest else rest

abbrev pub sum_from : Float → List Float → Float
sum_from acc [] = acc
sum_from acc (x ∷ xs) = sum_from (add acc x) xs

abbrev pub AllFinite : List Float → Type 0
AllFinite = All (λ x. is_finite x ≡ true)

-- The loop ends with the sum exactly when every cost that counts is finite.
exposure_from_lem :
    (family : String) (acc : Float) (ps : List Position) (total : Float)
    → (exposure_from family acc ps ≡ some total)
      ↔ (AllFinite (family_costs family ps) × (sum_from acc (family_costs family ps) ≡ total))
unfolding exposure_from counts_toward
exposure_from_lem family acc [] total = ground arith
exposure_from_lem family acc (p ∷ ps) total = ground (
  arith,
  is_finite-eq p.cost_basis,
  exposure_from_lem family acc ps total,
  exposure_from_lem family (add acc p.cost_basis) ps total,
)

pub not_nan-sum_from :
    (acc : Float) (xs : List Float)
    → is_nan acc ≡ false
    → AllFinite xs
    → is_nan (sum_from acc xs) ≡ false
not_nan-sum_from acc [] h k = h
not_nan-sum_from acc (x ∷ xs) h (k, ks) = not_nan-sum_from (add acc x) xs (not_nan-add acc x h k) ks

-- A trade passes exactly when its cost, the limit and the cost of every unresolved position of its
-- family are finite, and the sum of those costs, from the left, and its own is at most the limit;
-- resolved positions and other families do not matter.
pub evaluate_concentration_iff :
    (ctx : RiskContext) (family : String) (cost : Float) (ps : List Position) (d : RiskDecision)
    → (evaluate_concentration ctx family cost ps d ≡ pass d) ↔ (
        (is_finite cost ≡ true)
        × (is_finite ctx.max_correlated_exposure ≡ true)
        × AllFinite (family_costs family ps)
        × (le (add (sum_from zero_float (family_costs family ps)) cost) ctx.max_correlated_exposure
            ≡ true))
unfolding evaluate_concentration is_nan
evaluate_concentration_iff ctx family cost ps d =
    let costs = family_costs family ps in
    let total = sum_from zero_float costs in
    elim (Option-cases (exposure_from family zero_float ps)) [
      | inl bad ↦ rw bad (ground (arith, exposure_from_lem family zero_float ps total))
      | inr (x, good) ↦ rw good (
          ground (
            arith,
            is_finite-eq cost,
            is_finite-eq ctx.max_correlated_exposure,
            exposure_from_lem family zero_float ps x,
            not_nan-sum_from zero_float costs refl,
            not_nan-add total cost,
            lt-eq-not-le ctx.max_correlated_exposure (add total cost),
          ))
    ]

abbrev pub approval : Float → RiskDecision
approval size = record { approved = true; reason_code = "OK"; suggested_size = size }

-- With finite numbers the cap returns an approval of the whole cost exactly for an unmapped
-- cluster, a cost that is not positive, or a total at most a positive ceiling.
pub evaluate_cluster_cap_iff :
    (ctx : ClusterCapContext)
    → is_finite ctx.cluster_open_usd ≡ true
    → is_finite ctx.proposed_cost ≡ true
    → is_finite ctx.max_cluster_usd ≡ true
    → (evaluate_cluster_cap ctx ≡ ok (approval ctx.proposed_cost)) ↔ (
        (str_eq ctx.cluster_id "unknown" ≡ true)
        ⊎ (le ctx.proposed_cost zero_float ≡ true)
        ⊎ ((lt zero_float ctx.max_cluster_usd ≡ true)
            × (le (add ctx.cluster_open_usd ctx.proposed_cost) ctx.max_cluster_usd ≡ true)))
unfolding evaluate_cluster_cap is_nan
evaluate_cluster_cap_iff ctx h k l =
    let open_num = is_nan_of_finite ctx.cluster_open_usd h in
    let max_num = is_nan_of_finite ctx.max_cluster_usd l in
    let total = add ctx.cluster_open_usd ctx.proposed_cost in
    ground (
      arith,
      not_nan-add ctx.cluster_open_usd ctx.proposed_cost,
      lt-eq-not-le ctx.max_cluster_usd total,
      lt-eq-not-le zero_float ctx.max_cluster_usd refl,
    )

-- The cap fails open on NaN: it approves every finite cost if the ceiling is NaN, and under a
-- positive ceiling if the open total is.
pub evaluate_cluster_cap_nan :
    (ctx : ClusterCapContext)
    → is_finite ctx.proposed_cost ≡ true
    → (ctx.max_cluster_usd ≡ nan)
      ⊎ ((ctx.cluster_open_usd ≡ nan) × (lt zero_float ctx.max_cluster_usd ≡ true))
    → evaluate_cluster_cap ctx ≡ ok (approval ctx.proposed_cost)
unfolding evaluate_cluster_cap
evaluate_cluster_cap_nan ctx h (inl e) =
    let total = add ctx.cluster_open_usd ctx.proposed_cost in
    ground (arith, e, nan_le zero_float, nan_lt total)
evaluate_cluster_cap_nan ctx h (inr (e, p)) = ground (
  arith,
  nan_add ctx.proposed_cost,
  lt_nan ctx.max_cluster_usd,
  lt-not_le zero_float ctx.max_cluster_usd,
)
