-- ===== src/Engine/Tracing/Tests.antt =====
-- Traced evaluations at concrete inputs.
use verdict_risk.Prelude.{if◌then◌else◌, String, ◌≡◌, refl, true, false, []}
use verdict_risk.Engine.Chain.{Trade, evaluate_stateless}
use verdict_risk.Engine.Tracing.{tracing_enabled, evaluate_traced}
use verdict_risk.Engine.Tracing.Spans.{evaluate_traced-answer}
use verdict_risk.Engine.Tracing.Calls.{trace_of, evaluate_traced-calls}
use verdict_risk.Tests.Data.{quarter, desk, proposal}

abbrev sdk : String
sdk = "opentelemetry.sdk.trace"

-- A trade whose expected value is below the minimum.
abbrev poor : Trade
poor = record proposal { expected_value = quarter }

evaluate_traced-answer_example :
    (evaluate_traced sdk desk poor 400_000).1 ≡ evaluate_stateless desk poor 400_000
evaluate_traced-answer_example = evaluate_traced-answer sdk desk poor 400_000

evaluate_traced-calls_example : (evaluate_traced sdk desk poor 400_000).0 ≡ (
    if tracing_enabled sdk then trace_of desk poor (evaluate_stateless desk poor 400_000) else [])
evaluate_traced-calls_example = evaluate_traced-calls sdk desk poor 400_000

sdk_is_traced : tracing_enabled sdk ≡ true
unfolding tracing_enabled
sdk_is_traced = refl

proxy_is_not : tracing_enabled "opentelemetry.trace" ≡ false
unfolding tracing_enabled
proxy_is_not = refl
