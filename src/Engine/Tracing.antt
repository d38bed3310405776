-- ===== src/Engine/Tracing.antt =====
-- The spans of `_evaluate_stateless`: what it asks OpenTelemetry to do, in order, beside its answer.
-- The tracer provider is a parameter, by the module of its class.
pub mod Spans
pub mod Silent
pub mod Children
pub mod Calls
mod Tests
use verdict_risk.Prelude.{
  if◌then◌else◌, ltb_ℤ, pos, ℕ, ◌/◌, String, Bool, true, false, List, [], ◌∷◌, ◌++◌,
}
use verdict_risk.Py.Except.{Result, err, ok}
use verdict_risk.Py.Float.{Float}
use verdict_risk.State.{RiskContext, RiskDecision, new_decision}
use verdict_risk.Gates.Verdict.{Verdict}
use verdict_risk.Gates.Drawdown.{evaluate_drawdown}
use verdict_risk.Gates.Concentration.{evaluate_concentration}
use verdict_risk.Gates.ExpectedValue.{evaluate_expected_value}
use verdict_risk.Gates.LossWindow.{evaluate_consecutive_losses}
use verdict_risk.Engine.Chain.{Trade, check_latency, check_cluster}
use text.Mathlib.Text.{starts_with}

-- The values of attributes.
pub data Attribute : Type 0 where
  bool_value : Bool → Attribute
  float_value : Float → Attribute
  str_value : String → Attribute

-- A span is entered and left, and in between `span.set_attribute` is called on it or a span inside.
pub data SpanCall : Type 0 where
  entering : String → SpanCall
  setting : String → Attribute → SpanCall
  leaving : SpanCall

-- The calls, and what the traced code returns or raises.
abbrev pub Traced : Type 0 → Type 0
Traced A = List SpanCall × Result A

-- `_tracing_enabled`, by `provider.__class__.__module__`
unfoldable pub tracing_enabled : String → Bool
tracing_enabled provider = starts_with provider "opentelemetry.sdk"

-- `with tracer.start_as_current_span(name)`; the span is left also when the body raises.
unfoldable pub in_span : {A : Type 0} → String → Traced A → Traced A
in_span name (calls, result) = (entering name ∷ (calls ++ (leaving ∷ [])), result)

-- `with _maybe_span(tracer, name) as span`, where the body is told whether there is a span.
unfoldable pub maybe_span : {A : Type 0} → String → String → (Bool → Traced A) → Traced A
unfolding in_span
maybe_span provider name body =
    if tracing_enabled provider then in_span name (body true) else body false

unfoldable pub set_all : List (String × Attribute) → List SpanCall
set_all [] = []
set_all ((key, value) ∷ attrs) = setting key value ∷ set_all attrs

-- `_set_attrs`, where there may be no span.
unfoldable pub set_attrs : Bool → List (String × Attribute) → List SpanCall
unfolding set_all
set_attrs span attrs = if span then set_all attrs else []

-- `_mark_rejected`
unfoldable pub mark_rejected : Bool → RiskDecision → List SpanCall
mark_rejected span decision =
    set_attrs span
      (("approved", bool_value false) ∷ ("reason_code", str_value decision.reason_code) ∷ [])

-- What follows the gate inside its span.
unfoldable pub annotate : Bool → Verdict → List SpanCall
annotate span (err e) = []
annotate span (ok (decision, true)) = set_attrs span (("approved", bool_value true) ∷ [])
annotate span (ok (decision, false)) =
    set_attrs span (("approved", bool_value false) ∷ [])
    ++ set_attrs span (("reason_code", str_value decision.reason_code) ∷ [])

-- `_run_gate`, by what the gate returns.
unfoldable pub run_gate : String → String → Verdict → Traced (RiskDecision × Bool)
run_gate provider name verdict = maybe_span provider name λ span. (annotate span verdict, verdict)

-- `if not ...: _mark_rejected(span, decision); return decision`
unfoldable pub then_marked :
    Bool → Traced (RiskDecision × Bool) → (RiskDecision → Traced RiskDecision) → Traced RiskDecision
then_marked span (calls, err e) next = (calls, err e)
then_marked span (calls, ok (decision, false)) next =
    (calls ++ mark_rejected span decision, ok decision)
then_marked span (calls, ok (decision, true)) next =
    let (rest, result) = next decision in (calls ++ rest, result)

-- The attributes of the root span at its start.
abbrev pub trade_attrs : Trade → List (String × Attribute)
trade_attrs trade =
    ("trade_risk_engine.target_family", str_value trade.target_family)
    ∷ ("trade_risk_engine.proposed_cost", float_value trade.proposed_cost)
    ∷ ("trade_risk_engine.expected_value", float_value trade.expected_value)
    ∷ ("trade_risk_engine.daily_realized_pnl", float_value trade.daily_realized_pnl)
    ∷ ("trade_risk_engine.equity", float_value trade.equity)
    ∷ []

-- The test of the time taken, and the end.
unfoldable pub finish : Bool → RiskContext → ℕ → RiskDecision → Traced RiskDecision
finish span ctx elapsed_ns decision =
    let timed = check_latency ctx elapsed_ns decision in
    if ltb_ℤ ctx.latency_budget_us (pos (elapsed_ns / 1000))
    then (mark_rejected span timed, ok timed)
    else (
      set_attrs span (
          ("approved", bool_value true)
          ∷ ("suggested_size", float_value timed.suggested_size)
          ∷ []),
      ok timed,
    )

-- The gates in their spans; the cluster cap has none.
unfoldable pub run_gates_traced :
    Bool → String → RiskContext → Trade → ℕ → RiskDecision → Traced RiskDecision
run_gates_traced span provider ctx trade elapsed_ns decision =
    then_marked span
      (run_gate provider "evaluate_expected_value"
        (evaluate_expected_value ctx trade.expected_value decision))
      λ decision.
        then_marked span
          (run_gate provider "evaluate_drawdown"
            (evaluate_drawdown ctx trade.daily_realized_pnl trade.equity decision))
          λ decision.
            then_marked span
              (run_gate provider "evaluate_consecutive_losses"
                (evaluate_consecutive_losses ctx trade.trade_outcomes trade.current_time decision))
              λ decision.
                then_marked span
                  (run_gate provider "evaluate_concentration" (
                    evaluate_concentration ctx trade.target_family trade.proposed_cost
                      trade.open_positions decision))
                  λ decision.
                    then_marked span ([], check_cluster trade.cluster_cap_ctx decision)
                      λ decision. finish span ctx elapsed_ns decision

-- What follows the first attributes, unless the cost is refused.
unfoldable pub start_gates :
    Bool → String → RiskContext → Trade → ℕ → Result RiskDecision → Traced RiskDecision
start_gates span provider ctx trade elapsed_ns (err e) = ([], err e)
start_gates span provider ctx trade elapsed_ns (ok decision) =
    run_gates_traced span provider ctx trade elapsed_ns decision

-- `_evaluate_stateless`, with its spans.
unfoldable pub evaluate_traced : String → RiskContext → Trade → ℕ → Traced RiskDecision
evaluate_traced provider ctx trade elapsed_ns = maybe_span provider "evaluate_trade" λ span.
    let (calls, result) =
      start_gates span provider ctx trade elapsed_ns (new_decision true "OK" trade.proposed_cost) in
    (set_attrs span (trade_attrs trade) ++ calls, result)

-- `RiskAuthority.evaluate_trade`
unfoldable pub evaluate_trade : String → RiskContext → Trade → ℕ → Traced RiskDecision
evaluate_trade provider ctx trade elapsed_ns = evaluate_traced provider ctx trade elapsed_ns
