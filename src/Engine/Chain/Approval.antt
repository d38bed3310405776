-- ===== src/Engine/Chain/Approval.antt =====
-- What the chain of pure gates decides: the same as its gates, asked one by one.

use verdict_risk.Gates.Pass.{approval}
use verdict_risk.Py.Float.{Float, is_finite}
use verdict_risk.Gates.Answers.{
  evaluate_expected_value-Answers, evaluate_drawdown-Answers, evaluate_concentration-Answers,
}
use verdict_risk.Gates.LossWindow.Total.{evaluate_consecutive_losses-Answers}
use verdict_risk.Gates.LossWindow.{evaluate_consecutive_losses}
use verdict_risk.Gates.ClusterCap.{ClusterCapContext, evaluate_cluster_cap}
use verdict_risk.Gates.ExpectedValue.{evaluate_expected_value}
use verdict_risk.Gates.Concentration.{evaluate_concentration}
use verdict_risk.Gates.Drawdown.{evaluate_drawdown}
use verdict_risk.Gates.Verdict.{Verdict, reject, pass, Keeps, Keeps-of_Answers}
use verdict_risk.State.{RiskContext, RiskDecision, new_decision}
use verdict_risk.Py.Except.{Result, ◌>>=◌, value_error, err, ok}
use verdict_risk.Prelude.{
  if◌then◌else◌, All, ◌≤ℤ◌, pos, ℕ, ◌/◌, ◌≡◌, refl, ap, ◌∙◌, ◌↔◌, true, false, not, Option, none,
  some, List, [], ◌∷◌, arith,
}
use verdict_risk.Engine.Chain.{
  Trade, then_gate, check_latency, check_cluster, run_gates, evaluate_stateless,
}

check_cluster-Keeps :
    (c : Option ClusterCapContext) (d : RiskDecision) → Keeps d (check_cluster c d)
unfolding check_cluster
check_cluster-Keeps none d = refl
check_cluster-Keeps (some c) d = cases (evaluate_cluster_cap c)
  where
    cases :
        (r : Result RiskDecision)
        → Keeps d
            (r >>= λ answer. if not answer.approved then reject d answer.reason_code else pass d)
    cases (err e) = tt
    cases (ok answer) = ground arith

-- The verdicts of the gates, each on the same decision.
abbrev pub verdicts : RiskContext → Trade → RiskDecision → List Verdict
verdicts ctx trade d =
    evaluate_expected_value ctx trade.expected_value d
    ∷ evaluate_drawdown ctx trade.daily_realized_pnl trade.equity d
    ∷ evaluate_consecutive_losses ctx trade.trade_outcomes trade.current_time d
    ∷ evaluate_concentration ctx trade.target_family trade.proposed_cost trade.open_positions d
    ∷ check_cluster trade.cluster_cap_ctx d
    ∷ []

-- The first verdict that is not a pass, or what follows.
abbrev pub first_failure : List Verdict → Result RiskDecision → Result RiskDecision
first_failure [] next = next
first_failure (err e ∷ vs) next = err e
first_failure (ok (after, false) ∷ vs) next = ok after
first_failure (ok (after, true) ∷ vs) next = first_failure vs next

then_gate-first_failure :
    (d : RiskDecision) (v : Verdict) (next : RiskDecision → Result RiskDecision) (vs : List Verdict)
    (last : Result RiskDecision)
    → Keeps d v
    → next d ≡ first_failure vs last
    → then_gate v next ≡ first_failure (v ∷ vs) last
unfolding then_gate
then_gate-first_failure d (err e) next vs last h k = refl
then_gate-first_failure d (ok (after, true)) next vs last h k = ap next h ∙ k
then_gate-first_failure d (ok (after, false)) next vs last h k = refl

run_gates-first_failure :
    (ctx : RiskContext) (trade : Trade) (ns : ℕ) (d : RiskDecision)
    → run_gates ctx trade ns d ≡ first_failure (verdicts ctx trade d) (ok (check_latency ctx ns d))
unfolding run_gates
run_gates-first_failure ctx trade ns d =
    then_gate-first_failure d _ _ _ _
      (Keeps-of_Answers d _ (evaluate_expected_value-Answers ctx trade.expected_value d))
      (then_gate-first_failure d _ _ _ _
        (Keeps-of_Answers d _
          (evaluate_drawdown-Answers ctx trade.daily_realized_pnl trade.equity d))
        (then_gate-first_failure d _ _ _ _
          (Keeps-of_Answers d _
            (evaluate_consecutive_losses-Answers ctx trade.trade_outcomes trade.current_time d))
          (then_gate-first_failure d _ _ _ _
            (Keeps-of_Answers d _ (
              evaluate_concentration-Answers ctx trade.target_family trade.proposed_cost
                trade.open_positions d))
            (then_gate-first_failure d _ _ [] _ (check_cluster-Keeps trade.cluster_cap_ctx d)
              refl))))

pub new_decision-finite :
    (cost : Float) → is_finite cost ≡ true → new_decision true "OK" cost ≡ ok (approval cost)
unfolding new_decision
new_decision-finite cost h = rw h

pub new_decision-err :
    (cost : Float)
    → is_finite cost ≡ false
    → new_decision true "OK" cost ≡ err (value_error "suggested_size must be finite")
unfolding new_decision
new_decision-err cost h = rw h

-- For a finite cost the chain answers what its gates say when each is asked alone, on a fresh
-- decision: the first rejection or exception in the order expected value, drawdown, consecutive
-- losses, concentration, cluster cap; and if all pass, the verdict of the latency budget.
pub evaluate_stateless-first_failure :
    (ctx : RiskContext) (trade : Trade) (ns : ℕ)
    → is_finite trade.proposed_cost ≡ true
    → let d = approval trade.proposed_cost in
      evaluate_stateless ctx trade ns
      ≡ first_failure (verdicts ctx trade d) (ok (check_latency ctx ns d))
unfolding evaluate_stateless
evaluate_stateless-first_failure ctx trade ns h =
    rw (new_decision-finite trade.proposed_cost h)
      (run_gates-first_failure ctx trade ns (approval trade.proposed_cost))

abbrev pub AllKeep : RiskDecision → List Verdict → Type 0
AllKeep d = All (Keeps d)

pub verdicts-Keep :
    (ctx : RiskContext) (trade : Trade) (d : RiskDecision) → AllKeep d (verdicts ctx trade d)
verdicts-Keep ctx trade d = (
  Keeps-of_Answers d _ (evaluate_expected_value-Answers ctx trade.expected_value d),
  (
    Keeps-of_Answers d _ (evaluate_drawdown-Answers ctx trade.daily_realized_pnl trade.equity d),
    (
      Keeps-of_Answers d _
          (evaluate_consecutive_losses-Answers ctx trade.trade_outcomes trade.current_time d),
      (
        Keeps-of_Answers d _ (
            evaluate_concentration-Answers ctx trade.target_family trade.proposed_cost
              trade.open_positions d),
        (check_cluster-Keeps trade.cluster_cap_ctx d, tt),
      ),
    ),
  ),
)

first_failure_iff :
    (d : RiskDecision) (vs : List Verdict) (last : Result RiskDecision)
    → d.approved ≡ true
    → AllKeep d vs
    → (first_failure vs last ≡ ok d) ↔ (All (λ v. v ≡ pass d) vs × (last ≡ ok d))
first_failure_iff d [] last a h = ground arith
first_failure_iff d (err e ∷ vs) last a (h, hs) = ground arith
first_failure_iff d (ok (after, false) ∷ vs) last a (h, hs) = ground arith
first_failure_iff d (ok (after, true) ∷ vs) last a (h, hs) =
    ground (arith, first_failure_iff d vs last a hs)

check_latency_iff :
    (ctx : RiskContext) (ns : ℕ) (d : RiskDecision)
    → d.approved ≡ true
    → (ok (check_latency ctx ns d) ≡ ok d) ↔ (pos (ns / 1000) ≤ℤ ctx.latency_budget_us)
unfolding check_latency
check_latency_iff ctx ns d a = ground arith

-- A trade with a finite cost is approved, with the whole cost as its size, exactly when each gate
-- lets it through on its own and the evaluation took at most the latency budget.
pub evaluate_stateless_iff :
    (ctx : RiskContext) (trade : Trade) (ns : ℕ)
    → is_finite trade.proposed_cost ≡ true
    → let d = approval trade.proposed_cost in
      (evaluate_stateless ctx trade ns ≡ ok d) ↔ (
        (evaluate_expected_value ctx trade.expected_value d ≡ pass d)
        × (evaluate_drawdown ctx trade.daily_realized_pnl trade.equity d ≡ pass d)
        × (evaluate_consecutive_losses ctx trade.trade_outcomes trade.current_time d ≡ pass d)
        × (evaluate_concentration ctx trade.target_family trade.proposed_cost trade.open_positions d
            ≡ pass d)
        × (check_cluster trade.cluster_cap_ctx d ≡ pass d)
        × (pos (ns / 1000) ≤ℤ ctx.latency_budget_us))
evaluate_stateless_iff ctx trade ns h =
    let d = approval trade.proposed_cost in
    let whole =
      first_failure_iff d (verdicts ctx trade d) (ok (check_latency ctx ns d)) refl
        (verdicts-Keep ctx trade d) in
    let late = check_latency_iff ctx ns d refl in
    rw (evaluate_stateless-first_failure ctx trade ns h) (
      λ e. let ((a, (b, (c, (f, (g, _))))), t) = whole.0 e in (a, b, c, f, g, late.0 t),
      λ (a, b, c, f, g, t). whole.1 ((a, (b, (c, (f, (g, tt))))), late.1 t),
    )

-- A cost that is NaN or infinite makes the chain raise before any gate is asked: the rejection
-- that evaluate_concentration has for it is never answered.
pub evaluate_stateless_bad_cost :
    (ctx : RiskContext) (trade : Trade) (ns : ℕ)
    → is_finite trade.proposed_cost ≡ false
    → evaluate_stateless ctx trade ns ≡ err (value_error "suggested_size must be finite")
unfolding evaluate_stateless new_decision
evaluate_stateless_bad_cost ctx trade ns h = rw h
