-- ===== src/Engine/Tracing/Spans.antt =====
-- The answers of traced evaluations.

use verdict_risk.Engine.Chain.{Trade, then_gate, run_gates, evaluate_stateless}
use verdict_risk.Gates.Verdict.{Verdict}
use verdict_risk.State.{RiskContext, RiskDecision, new_decision}
use verdict_risk.Py.Except.{Result, ◌>>=◌, err, ok}
use verdict_risk.Prelude.{Bool-cases, ℕ, String, ◌≡◌, refl, inl, inr, Bool, true, false, arith}
use verdict_risk.Engine.Tracing.{
  Traced, tracing_enabled, maybe_span, run_gate, then_marked, finish, run_gates_traced, start_gates,
  evaluate_traced,
}

maybe_span-answer :
    {A : Type 0} (provider name : String) (body : Bool → Traced A) (r : Result A)
    → ((span : Bool) → (body span).1 ≡ r)
    → (maybe_span provider name body).1 ≡ r
unfolding maybe_span
maybe_span-answer provider name body r h = elim (Bool-cases (tracing_enabled provider)) [
  | inl on ↦ rw on (h true)
  | inr off ↦ rw off (h false)
]

-- A gate in its span answers as it does alone.
run_gate-answer : (provider name : String) (v : Verdict) → (run_gate provider name v).1 ≡ v
unfolding run_gate
run_gate-answer provider name v = maybe_span-answer provider name _ v (λ span. refl)

then_marked-answer :
    (span : Bool) (t : Traced (RiskDecision × Bool)) (v : Verdict)
    (next : RiskDecision → Traced RiskDecision) (next' : RiskDecision → Result RiskDecision)
    → t.1 ≡ v
    → ((d : RiskDecision) → (next d).1 ≡ next' d)
    → (then_marked span t next).1 ≡ then_gate v next'
unfolding then_marked then_gate
then_marked-answer span (calls, err x) v next next' e h = ground arith
then_marked-answer span (calls, ok (d, false)) v next next' e h = ground arith
then_marked-answer span (calls, ok (d, true)) v next next' e h = ground (arith, h d)

pub run_gates_traced-answer :
    (span : Bool) (provider : String) (ctx : RiskContext) (trade : Trade) (ns : ℕ)
    (d : RiskDecision)
    → (run_gates_traced span provider ctx trade ns d).1 ≡ run_gates ctx trade ns d
unfolding run_gates_traced run_gates finish
run_gates_traced-answer span provider ctx trade ns d =
    then_marked-answer span _ _ _ _ (run_gate-answer provider _ _) λ d.
      then_marked-answer span _ _ _ _ (run_gate-answer provider _ _) λ d.
        then_marked-answer span _ _ _ _ (run_gate-answer provider _ _) λ d.
          then_marked-answer span _ _ _ _ (run_gate-answer provider _ _)
            λ d. then_marked-answer span _ _ _ _ refl λ d. ground arith

start_gates-answer :
    (span : Bool) (provider : String) (ctx : RiskContext) (trade : Trade) (ns : ℕ)
    (r : Result RiskDecision)
    → (start_gates span provider ctx trade ns r).1 ≡ (r >>= run_gates ctx trade ns)
unfolding start_gates
start_gates-answer span provider ctx trade ns (err e) = refl
start_gates-answer span provider ctx trade ns (ok d) =
    run_gates_traced-answer span provider ctx trade ns d

-- Whatever the tracer provider is, the traced evaluation returns or raises what the pure chain
-- does without spans.
pub evaluate_traced-answer :
    (provider : String) (ctx : RiskContext) (trade : Trade) (ns : ℕ)
    → (evaluate_traced provider ctx trade ns).1 ≡ evaluate_stateless ctx trade ns
unfolding evaluate_traced evaluate_stateless
evaluate_traced-answer provider ctx trade ns =
    maybe_span-answer provider "evaluate_trade" _ _ λ span.
      start_gates-answer span provider ctx trade ns (new_decision true "OK" trade.proposed_cost)
