-- ===== src/Engine/Chain/Answer.antt =====
-- What the chain answers, and that it does.
use verdict_risk.Prelude.{
  Bool-cases, All, ltb_ℤ, pos, ℕ, ◌/◌, ◌≡◌, refl, sym, ◌∙◌, ◌⊎◌, inl, inr, true, false, none, List,
  [], ◌∷◌, arith,
}
use verdict_risk.Py.Except.{value_error, err, ok}
use verdict_risk.Py.Float.{is_finite}
use verdict_risk.State.{RiskContext, RiskDecision}
use verdict_risk.Gates.Verdict.{Verdict, pass, Answers}
use verdict_risk.Gates.Drawdown.{evaluate_drawdown}
use verdict_risk.Gates.Concentration.{evaluate_concentration}
use verdict_risk.Gates.ExpectedValue.{evaluate_expected_value}
use verdict_risk.Gates.LossWindow.{evaluate_consecutive_losses}
use verdict_risk.Gates.LossWindow.Total.{evaluate_consecutive_losses-Answers}
use verdict_risk.Gates.Answers.{
  evaluate_expected_value-Answers, evaluate_drawdown-Answers, evaluate_concentration-Answers,
}
use verdict_risk.Gates.Pass.{approval}
use verdict_risk.Engine.Chain.{Trade, check_latency, check_cluster, evaluate_stateless}
use verdict_risk.Engine.Chain.Approval.{
  verdicts, first_failure, evaluate_stateless-first_failure, AllKeep, verdicts-Keep,
  evaluate_stateless_bad_cost,
}

-- A decision as it was, or rejected with its size.
abbrev pub IsAnswer : RiskDecision → RiskDecision → Type 0
IsAnswer d after =
    (after ≡ d) ⊎ ((after.approved ≡ false) × (after.suggested_size ≡ d.suggested_size))

check_latency-IsAnswer :
    (ctx : RiskContext) (ns : ℕ) (d : RiskDecision) → IsAnswer d (check_latency ctx ns d)
unfolding check_latency
check_latency-IsAnswer ctx ns d =
    elim (Bool-cases (ltb_ℤ ctx.latency_budget_us (pos (ns / 1000)))) [
      | inl late ↦ rw late (inr (refl, refl))
      | inr soon ↦ rw soon (inl refl)
    ]

first_failure-IsAnswer :
    (d last after : RiskDecision) (vs : List Verdict)
    → AllKeep d vs
    → IsAnswer d last
    → first_failure vs (ok last) ≡ ok after
    → IsAnswer d after
first_failure-IsAnswer d last after [] h k e = ground arith
first_failure-IsAnswer d last after (err x ∷ vs) h k e = cc
first_failure-IsAnswer d last after (ok (x, false) ∷ vs) (h, hs) k e = ground arith
first_failure-IsAnswer d last after (ok (x, true) ∷ vs) (h, hs) k e =
    first_failure-IsAnswer d last after vs hs k e

-- Whatever the chain answers is an approval of the whole cost, with the reason OK, or a rejection
-- that keeps the cost as its size.
pub evaluate_stateless-IsAnswer :
    (ctx : RiskContext) (trade : Trade) (ns : ℕ) (after : RiskDecision)
    → evaluate_stateless ctx trade ns ≡ ok after
    → IsAnswer (approval trade.proposed_cost) after
evaluate_stateless-IsAnswer ctx trade ns after e =
    let d = approval trade.proposed_cost in
    elim (Bool-cases (is_finite trade.proposed_cost)) [
      | inl good ↦
          first_failure-IsAnswer d (check_latency ctx ns d) after (verdicts ctx trade d)
            (verdicts-Keep ctx trade d) (check_latency-IsAnswer ctx ns d)
            (sym (evaluate_stateless-first_failure ctx trade ns good) ∙ e)
      | inr bad ↦ absurd (raises_not (evaluate_stateless_bad_cost ctx trade ns bad))
    ]
  where
    raises_not :
        evaluate_stateless ctx trade ns ≡ err (value_error "suggested_size must be finite") → ⊥
    raises_not r = cc

abbrev AllAnswer : RiskDecision → List Verdict → Type 0
AllAnswer d = All (Answers d)

first_failure-returns :
    (d last : RiskDecision) (vs : List Verdict)
    → AllAnswer d vs
    → (after : RiskDecision) × (first_failure vs (ok last) ≡ ok after)
first_failure-returns d last [] h = (last, refl)
first_failure-returns d last (err e ∷ vs) (h, hs) = absurd h
first_failure-returns d last (ok (after, false) ∷ vs) (h, hs) = (after, refl)
first_failure-returns d last (ok (after, true) ∷ vs) (h, hs) = first_failure-returns d last vs hs

-- Without a cluster cap, a trade of a finite cost is answered.
pub evaluate_stateless-returns :
    (ctx : RiskContext) (trade : Trade) (ns : ℕ)
    → is_finite trade.proposed_cost ≡ true
    → trade.cluster_cap_ctx ≡ none
    → (after : RiskDecision) × (evaluate_stateless ctx trade ns ≡ ok after)
unfolding check_cluster
evaluate_stateless-returns ctx trade ns f c =
    let d = approval trade.proposed_cost in
    rw (evaluate_stateless-first_failure ctx trade ns f, c)
      (first_failure-returns d (check_latency ctx ns d)
        (evaluate_expected_value ctx trade.expected_value d
          ∷ evaluate_drawdown ctx trade.daily_realized_pnl trade.equity d
          ∷ evaluate_consecutive_losses ctx trade.trade_outcomes trade.current_time d
          ∷ evaluate_concentration ctx trade.target_family trade.proposed_cost trade.open_positions
              d
          ∷ pass d
          ∷ [])
        (
          evaluate_expected_value-Answers ctx trade.expected_value d,
          (
            evaluate_drawdown-Answers ctx trade.daily_realized_pnl trade.equity d,
            (
              evaluate_consecutive_losses-Answers ctx trade.trade_outcomes trade.current_time d,
              (
                evaluate_concentration-Answers ctx trade.target_family trade.proposed_cost
                    trade.open_positions d,
                (refl, tt),
              ),
            ),
          ),
        ))
