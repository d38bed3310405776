-- ===== src/Provider/Agreement.antt =====
-- The report of the gates and the authoritative decision agree.

use verdict_risk.Engine.Authority.Stateful.{evaluate_with_state_plain}
use verdict_risk.Engine.Chain.Approval.{new_decision-finite, evaluate_stateless_iff}
use verdict_risk.Gates.Answers.{
  evaluate_expected_value-Answers, evaluate_drawdown-Answers, evaluate_concentration-Answers,
}
use verdict_risk.Gates.LossWindow.Total.{evaluate_consecutive_losses-Answers}
use verdict_risk.Gates.ExpectedValue.{evaluate_expected_value}
use verdict_risk.Gates.Concentration.{evaluate_concentration}
use verdict_risk.Gates.Drawdown.{evaluate_drawdown}
use verdict_risk.Engine.Authority.{RiskAuthority}
use verdict_risk.Engine.Chain.{check_cluster}
use verdict_risk.Gates.Pass.{approval}
use verdict_risk.Gates.LossWindow.{evaluate_consecutive_losses}
use verdict_risk.Gates.Verdict.{Verdict, pass, Answers}
use verdict_risk.State.{RiskContext, RiskDecision, TradeOutcome}
use verdict_risk.Py.Time.{Datetime}
use verdict_risk.Py.Float.{Float, is_finite}
use verdict_risk.Py.Except.{◌>>=◌, err, ok}
use verdict_risk.Prelude.{
  All, ◌≤ℤ◌, pos, ℕ, ◌/◌, String, ◌≡◌, refl, ◌↔◌, true, false, Option, none, some, List, [], ◌∷◌,
  map, arith,
}
use verdict_risk.Provider.Request.{RiskProviderRequest}
use verdict_risk.Provider.{
  GateOutcome, report_gate, stateless_gates, gate_report, or_none, trade_of, decide,
}

abbrev outcome_of : String → RiskDecision → GateOutcome
outcome_of name after = record {
  gate = name;
  approved = after.approved;
  reason_code = after.reason_code;
}

-- The entry for a gate that raises nothing: approved exactly when the gate lets the trade through.
entry_of :
    (name : String) (d : RiskDecision) (v : Verdict)
    → d.approved ≡ true
    → Answers d v
    → (o : GateOutcome) × ((v >>= λ (after, go). ok (outcome_of name after)) ≡ ok o)
      × ((o.approved ≡ true) ↔ (v ≡ pass d))
entry_of name d (err e) h a = absurd a
entry_of name d (ok (after, true)) h a = (outcome_of name after, refl, ground arith)
entry_of name d (ok (after, false)) h a = (outcome_of name after, refl, ground arith)

report_gate_lem :
    (name : String) (cost : Float) (gate : RiskDecision → Verdict)
    → is_finite cost ≡ true
    → Answers (approval cost) (gate (approval cost))
    → (o : GateOutcome) × (report_gate name cost gate ≡ ok o)
      × ((o.approved ≡ true) ↔ (gate (approval cost) ≡ pass (approval cost)))
unfolding report_gate
report_gate_lem name cost gate h a =
    rw (new_decision-finite cost h) (entry_of name (approval cost) (gate (approval cost)) refl a)

-- Whether the report approves.
abbrev pub AllApproved : List GateOutcome → Type 0
AllApproved = All (λ o. o.approved ≡ true)

losses_or_none :
    (ctx : RiskContext) (os : List TradeOutcome) (now : Option Datetime) (d : RiskDecision)
    → evaluate_consecutive_losses ctx (or_none os) now d
      ≡ evaluate_consecutive_losses ctx (some os) now d
unfolding evaluate_consecutive_losses
losses_or_none ctx [] now d = refl
losses_or_none ctx (o ∷ os) now d = refl

report_gate-gate :
    (name : String) (cost : Float) (gate : RiskDecision → Verdict) (o : GateOutcome)
    → report_gate name cost gate ≡ ok o
    → o.gate ≡ name
unfolding report_gate
report_gate-gate name cost gate o e = ground (arith, e)

-- Without stateful gates and with a finite cost, the report of the gates is made, it names the
-- four gates in their order, and the authoritative decision is an approval of the whole cost
-- exactly when all entries of the report approve and the evaluation took at most the latency
-- budget.
pub decide-gate_report :
    (authority : RiskAuthority) (ctx : RiskContext) (request : RiskProviderRequest) (ns : ℕ)
    → authority.kill_switch ≡ none
    → authority.timed_breaker ≡ none
    → authority.consecutive_loss_gate ≡ none
    → is_finite request.proposed_cost ≡ true
    → (report : List GateOutcome) × (gate_report ctx request ≡ ok report)
      × (((decide authority ctx request ns).answer ≡ ok (approval request.proposed_cost))
          ↔ (AllApproved report × (pos (ns / 1000) ≤ℤ ctx.latency_budget_us)))
      × (map (λ (o : GateOutcome). o.gate) report ≡ stateless_gates)
unfolding decide gate_report check_cluster
decide-gate_report authority ctx request ns k t l f =
    let d = approval request.proposed_cost in
    let (o1, e1, i1) =
      report_gate_lem "evaluate_expected_value" request.proposed_cost
        (evaluate_expected_value ctx request.expected_value) f
        (evaluate_expected_value-Answers ctx request.expected_value d) in
    let (o2, e2, i2) =
      report_gate_lem "evaluate_drawdown" request.proposed_cost
        (evaluate_drawdown ctx request.daily_realized_pnl request.equity) f
        (evaluate_drawdown-Answers ctx request.daily_realized_pnl request.equity d) in
    let (o3, e3, i3) =
      report_gate_lem "evaluate_consecutive_losses" request.proposed_cost
        (evaluate_consecutive_losses ctx (some request.trade_outcomes) request.current_time) f
        (evaluate_consecutive_losses-Answers ctx (some request.trade_outcomes) request.current_time
          d) in
    let (o4, e4, i4) =
      report_gate_lem "evaluate_concentration" request.proposed_cost
        (evaluate_concentration ctx request.target_family request.proposed_cost
          request.open_positions)
        f
        (evaluate_concentration-Answers ctx request.target_family request.proposed_cost
          request.open_positions d) in
    (
      o1 ∷ o2 ∷ o3 ∷ o4 ∷ [],
      rw (e1, e2, e3, e4),
      ground (
        arith,
        evaluate_with_state_plain authority ctx (trade_of request) ns k t l,
        evaluate_stateless_iff ctx (trade_of request) ns f,
        losses_or_none ctx request.trade_outcomes request.current_time d,
      ),
      ground (
        arith,
        report_gate-gate _ _ _ o1 e1,
        report_gate-gate _ _ _ o2 e2,
        report_gate-gate _ _ _ o3 e3,
        report_gate-gate _ _ _ o4 e4,
      ),
    )
