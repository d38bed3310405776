-- ===== src/Engine/Tracing/Calls.antt =====
-- Which spans there are, and what is written on them.

use verdict_risk.Engine.Tracing.Children.{spans_of, named, ending, run_gates_traced-calls}
use verdict_risk.Engine.Tracing.Spans.{run_gates_traced-answer}
use verdict_risk.Gates.Pass.{approval}
use verdict_risk.Py.Float.{is_finite}
use verdict_risk.Engine.Chain.Approval.{
  new_decision-finite, new_decision-err, evaluate_stateless_bad_cost,
}
use verdict_risk.Engine.Chain.{Trade, evaluate_stateless}
use verdict_risk.Gates.Verdict.{Verdict}
use verdict_risk.State.{RiskContext, RiskDecision, new_decision}
use verdict_risk.Py.Except.{Result, err, ok}
use verdict_risk.Prelude.{
  if◌then◌else◌, Bool-cases, ℕ, String, ◌≡◌, refl, sym, ap, inl, inr, true, false, List, [], ◌∷◌,
  ◌++◌,
}
use verdict_risk.Engine.Tracing.Silent.{run_gates_traced-silent}
use verdict_risk.Engine.Tracing.{
  SpanCall, tracing_enabled, in_span, maybe_span, set_all, set_attrs, run_gates_traced, start_gates,
  evaluate_traced, float_value, str_value, entering, setting, leaving,
}

-- The attributes that the root span starts with.
abbrev pub arguments : Trade → List SpanCall
arguments trade =
    setting "trade_risk_engine.target_family" (str_value trade.target_family)
    ∷ setting "trade_risk_engine.proposed_cost" (float_value trade.proposed_cost)
    ∷ setting "trade_risk_engine.expected_value" (float_value trade.expected_value)
    ∷ setting "trade_risk_engine.daily_realized_pnl" (float_value trade.daily_realized_pnl)
    ∷ setting "trade_risk_engine.equity" (float_value trade.equity)
    ∷ []

-- A cost that is refused ends the evaluation before any gate.
abbrev pub asked_gates : RiskContext → Trade → List (String × Verdict)
asked_gates ctx trade =
    if is_finite trade.proposed_cost then named ctx trade (approval trade.proposed_cost) else []

-- The calls of an evaluation that is traced, and answers the given result.
abbrev pub trace_of : RiskContext → Trade → Result RiskDecision → List SpanCall
trace_of ctx trade answer =
    entering "evaluate_trade"
    ∷ ((arguments trade ++ (spans_of (asked_gates ctx trade) ++ ending answer)) ++ (leaving ∷ []))

answer-traced :
    (provider : String) (ctx : RiskContext) (trade : Trade) (ns : ℕ)
    → is_finite trade.proposed_cost ≡ true
    → evaluate_stateless ctx trade ns
      ≡ (run_gates_traced true provider ctx trade ns (approval trade.proposed_cost)).1
unfolding evaluate_stateless
answer-traced provider ctx trade ns f =
    rw (new_decision-finite trade.proposed_cost f)
      (sym (run_gates_traced-answer true provider ctx trade ns (approval trade.proposed_cost)))

start_gates-calls :
    (provider : String) (ctx : RiskContext) (trade : Trade) (ns : ℕ)
    → tracing_enabled provider ≡ true
    → (start_gates true provider ctx trade ns (new_decision true "OK" trade.proposed_cost)).0
      ≡ spans_of (asked_gates ctx trade) ++ ending (evaluate_stateless ctx trade ns)
unfolding start_gates
start_gates-calls provider ctx trade ns on = elim (Bool-cases (is_finite trade.proposed_cost)) [
  | inl good ↦
      rw
        (
          good,
          new_decision-finite trade.proposed_cost good,
          answer-traced provider ctx trade ns good,
        )
        (run_gates_traced-calls provider ctx trade ns (approval trade.proposed_cost) on refl)
  | inr bad ↦
      rw
        (
          bad,
          new_decision-err trade.proposed_cost bad,
          evaluate_stateless_bad_cost ctx trade ns bad,
        )
        refl
]

start_gates-silent :
    (provider : String) (ctx : RiskContext) (trade : Trade) (ns : ℕ) (r : Result RiskDecision)
    → tracing_enabled provider ≡ false
    → (start_gates false provider ctx trade ns r).0 ≡ []
unfolding start_gates
start_gates-silent provider ctx trade ns (err e) off = refl
start_gates-silent provider ctx trade ns (ok d) off =
    run_gates_traced-silent provider ctx trade ns d off

-- If the tracer provider is one of the SDK, the calls of an evaluation are those of one root span,
-- which starts with the arguments, holds, for a finite cost, a span for each of the four gates in
-- order up to the first that does not pass, with its verdict and, of a rejection, its reason, and
-- ends with the answer, if there is one: approved with its size, or rejected with its reason; else
-- there are no calls.
pub evaluate_traced-calls :
    (provider : String) (ctx : RiskContext) (trade : Trade) (ns : ℕ)
    → (evaluate_traced provider ctx trade ns).0 ≡ (
        if tracing_enabled provider
        then trace_of ctx trade (evaluate_stateless ctx trade ns)
        else [])
unfolding evaluate_traced maybe_span in_span set_attrs set_all
evaluate_traced-calls provider ctx trade ns = elim (Bool-cases (tracing_enabled provider)) [
  | inl on ↦ rw on (
      ap
        (λ (calls : List SpanCall).
          entering "evaluate_trade" ∷ ((arguments trade ++ calls) ++ (leaving ∷ [])))
        (start_gates-calls provider ctx trade ns on))
  | inr off ↦
      rw off
        (start_gates-silent provider ctx trade ns (new_decision true "OK" trade.proposed_cost) off)
]
