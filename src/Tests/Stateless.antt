-- ===== src/Tests/Stateless.antt =====
-- Runs of the pure gates and of their chain, and the theorems about them at concrete inputs.
use text.Mathlib.Text.{◌==◌ as str_eq}
use verdict_risk.Py.Float.{
  is_nan, is_inf, is_finite, lt, le, magnitude, round, quotient, neg, add, mul, div, zero_float,
}
use verdict_risk.Py.Except.{ok}
use verdict_risk.Prelude.{
  ◌-ℤ◌, ◌≤ℤ◌, pos, suc, ◌/◌, ◌≡◌, refl, ◌↔◌, ◌⊎◌, true, some, List, [], ◌∷◌, reverse, arith,
}
use verdict_risk.Engine.Chain.{
  then_gate, check_latency, check_cluster, run_gates, evaluate_stateless,
}
use verdict_risk.Engine.Chain.Approval.{
  verdicts, first_failure, evaluate_stateless-first_failure, evaluate_stateless_iff,
}
use verdict_risk.Engine.Chain.Monotone.{evaluate_stateless_mono}
use verdict_risk.Gates.Pass.{
  evaluate_drawdown_iff, family_costs, sum_from, AllFinite, evaluate_concentration_iff,
  evaluate_cluster_cap_iff,
}
use verdict_risk.Gates.LossWindow.Total.{evaluate_consecutive_losses-Answers}
use verdict_risk.Gates.LossWindow.Streak.{losing_run, evaluate_consecutive_losses_iff}
use verdict_risk.Gates.LossWindow.{
  modes_of, sort_outcomes, window_seconds, count_losses, evaluate_consecutive_losses,
}
use verdict_risk.Gates.Verdict.{pass, timezone_mode, Answers}
use verdict_risk.Gates.Drawdown.{evaluate_drawdown}
use verdict_risk.Gates.Concentration.{counts_toward, exposure_from, evaluate_concentration}
use verdict_risk.Gates.ExpectedValue.{evaluate_expected_value}
use verdict_risk.Gates.ClusterCap.{evaluate_cluster_cap}
use verdict_risk.State.{new_decision, TradeOutcome}
use verdict_risk.Py.Time.{Datetime, instant, total_seconds}
use verdict_risk.Tests.Data.{
  dollars, minus_dollars, quarter, clock, desk, held, early_loss, late_loss, cluster, proposal,
  fresh,
}

evaluate_drawdown_iff_example :
    (evaluate_drawdown desk (minus_dollars 8) (dollars 1000) fresh ≡ pass fresh) ↔ (
      (is_finite (dollars 1000) ≡ true)
      × (is_finite (minus_dollars 8) ≡ true)
      × (is_finite quarter ≡ true)
      × (lt zero_float (dollars 1000) ≡ true)
      × (le (neg quarter) (quotient (minus_dollars 8) (dollars 1000)) ≡ true))
evaluate_drawdown_iff_example = evaluate_drawdown_iff desk (minus_dollars 8) (dollars 1000) fresh

evaluate_concentration_iff_example :
    let costs = family_costs "weather" (held ∷ []) in
    (evaluate_concentration desk "weather" (dollars 20) (held ∷ []) fresh ≡ pass fresh) ↔ (
      (is_finite (dollars 20) ≡ true)
      × (is_finite (dollars 100) ≡ true)
      × AllFinite costs
      × (le (add (sum_from zero_float costs) (dollars 20)) (dollars 100) ≡ true))
evaluate_concentration_iff_example =
    evaluate_concentration_iff desk "weather" (dollars 20) (held ∷ []) fresh

evaluate_cluster_cap_iff_example : (evaluate_cluster_cap cluster ≡ ok fresh) ↔ (
    (str_eq "coast" "unknown" ≡ true)
    ⊎ (le (dollars 20) zero_float ≡ true)
    ⊎ ((lt zero_float (dollars 80) ≡ true)
        × (le (add (dollars 50) (dollars 20)) (dollars 80) ≡ true)))
unfolding is_finite
evaluate_cluster_cap_iff_example = evaluate_cluster_cap_iff cluster refl refl refl

abbrev outcomes : List TradeOutcome
outcomes = late_loss ∷ early_loss ∷ []

-- An aware time among naive ones: the gate rejects and does not raise.
abbrev utc : Datetime
utc = record { ticks = 0; tzinfo = some (record { utcoffset = some (pos 0) }) }

evaluate_consecutive_losses-Answers_example :
    Answers fresh (evaluate_consecutive_losses desk (some outcomes) (some utc) fresh)
evaluate_consecutive_losses-Answers_example =
    evaluate_consecutive_losses-Answers desk (some outcomes) (some utc) fresh

evaluate_consecutive_losses_iff_example :
    (evaluate_consecutive_losses desk (some outcomes) (some (clock 720)) fresh ≡ pass fresh)
    ↔ (pos (suc (losing_run desk (clock 720) (reverse (sort_outcomes outcomes)))) ≤ℤ pos 3)
unfolding is_finite lt timezone_mode instant
evaluate_consecutive_losses_iff_example =
    evaluate_consecutive_losses_iff desk (clock 720) late_loss (early_loss ∷ []) fresh (omega arith)
      refl (refl, (refl, tt)) (refl, (refl, tt)) (omega arith, (omega arith, tt))

-- Two losses in a row, with a limit of 3.
two_losses : losing_run desk (clock 720) (reverse (sort_outcomes outcomes)) ≡ 2
unfolding losing_run sort_outcomes lt le total_seconds window_seconds mul round magnitude instant
    ◌-ℤ◌
two_losses = refl

evaluate_stateless-first_failure_example :
    evaluate_stateless desk proposal 400_000
    ≡ first_failure (verdicts desk proposal fresh) (ok (check_latency desk 400_000 fresh))
unfolding is_finite
evaluate_stateless-first_failure_example =
    evaluate_stateless-first_failure desk proposal 400_000 refl

evaluate_stateless_iff_example : (evaluate_stateless desk proposal 400_000 ≡ ok fresh) ↔ (
    (evaluate_expected_value desk (dollars 1) fresh ≡ pass fresh)
    × (evaluate_drawdown desk (minus_dollars 8) (dollars 1000) fresh ≡ pass fresh)
    × (evaluate_consecutive_losses desk (some outcomes) (some (clock 720)) fresh ≡ pass fresh)
    × (evaluate_concentration desk "weather" (dollars 20) (held ∷ []) fresh ≡ pass fresh)
    × (check_cluster (some cluster) fresh ≡ pass fresh)
    × (pos (400_000 / 1000) ≤ℤ pos 500))
unfolding is_finite
evaluate_stateless_iff_example = evaluate_stateless_iff desk proposal 400_000 refl

-- The whole chain, run: the proposal is approved.
proposal_approved : evaluate_stateless desk proposal 400_000 ≡ ok fresh
unfolding evaluate_stateless new_decision is_finite run_gates then_gate evaluate_expected_value
    evaluate_drawdown evaluate_consecutive_losses evaluate_concentration check_cluster check_latency
    evaluate_cluster_cap counts_toward exposure_from is_nan is_inf lt le add mul div round magnitude
    neg modes_of timezone_mode sort_outcomes count_losses total_seconds instant ◌-ℤ◌
proposal_approved = refl

evaluate_stateless_mono_example :
    evaluate_stateless desk
      (record proposal { daily_realized_pnl = minus_dollars 2; expected_value = dollars 3 })
      300_000
    ≡ ok fresh
unfolding is_finite le
evaluate_stateless_mono_example =
    evaluate_stateless_mono desk proposal (minus_dollars 2) (dollars 3) 400_000 300_000 refl refl
      refl refl refl (omega arith) proposal_approved
