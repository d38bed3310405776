-- ===== src/Engine/Tracing/Silent.antt =====
-- Evaluations without an SDK tracer.

use verdict_risk.Engine.Chain.{Trade}
use verdict_risk.Gates.Verdict.{Verdict}
use verdict_risk.State.{RiskContext, RiskDecision}
use verdict_risk.Py.Except.{err, ok}
use verdict_risk.Prelude.{ℕ, String, ◌≡◌, refl, Bool, true, false, [], arith}
use verdict_risk.Engine.Tracing.{
  Traced, tracing_enabled, maybe_span, set_attrs, mark_rejected, annotate, run_gate, then_marked,
  finish, run_gates_traced,
}

then_marked-silent :
    (t : Traced (RiskDecision × Bool)) (next : RiskDecision → Traced RiskDecision)
    → t.0 ≡ []
    → ((d : RiskDecision) → (next d).0 ≡ [])
    → (then_marked false t next).0 ≡ []
unfolding then_marked mark_rejected set_attrs
then_marked-silent (calls, err x) next e h = e
then_marked-silent (calls, ok (d, false)) next e h = ground (arith, e)
then_marked-silent (calls, ok (d, true)) next e h = ground (arith, e, h d)

run_gate-silent :
    (provider name : String) (v : Verdict)
    → tracing_enabled provider ≡ false
    → (run_gate provider name v).0 ≡ []
unfolding run_gate maybe_span annotate set_attrs
run_gate-silent provider name v off = rw off (ground arith)

pub run_gates_traced-silent :
    (provider : String) (ctx : RiskContext) (trade : Trade) (ns : ℕ) (d : RiskDecision)
    → tracing_enabled provider ≡ false
    → (run_gates_traced false provider ctx trade ns d).0 ≡ []
unfolding run_gates_traced finish mark_rejected set_attrs
run_gates_traced-silent provider ctx trade ns d off =
    then_marked-silent _ _ (run_gate-silent provider _ _ off) λ d.
      then_marked-silent _ _ (run_gate-silent provider _ _ off) λ d.
        then_marked-silent _ _ (run_gate-silent provider _ _ off) λ d.
          then_marked-silent _ _ (run_gate-silent provider _ _ off)
            λ d. then_marked-silent _ _ refl λ d. ground arith
