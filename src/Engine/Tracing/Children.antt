-- ===== src/Engine/Tracing/Children.antt =====
-- The spans of the gates, and what the root span ends with.

use mathlib.Core.List.{append-nil, append_assoc}
use verdict_risk.Engine.Chain.Approval.{verdicts-Keep}
use verdict_risk.Engine.Chain.{Trade, check_latency}
use verdict_risk.Gates.LossWindow.{evaluate_consecutive_losses}
use verdict_risk.Gates.ExpectedValue.{evaluate_expected_value}
use verdict_risk.Gates.Concentration.{evaluate_concentration}
use verdict_risk.Gates.Drawdown.{evaluate_drawdown}
use verdict_risk.Gates.Verdict.{Verdict, Keeps}
use verdict_risk.State.{RiskContext, RiskDecision}
use verdict_risk.Py.Except.{Result, err, ok}
use verdict_risk.Prelude.{
  if◌then◌else◌, ℕ, String, ◌≡◌, refl, sym, ap, ◌∙◌, subst, Bool, true, false, List, [], ◌∷◌, ◌++◌,
  arith,
}
use verdict_risk.Engine.Tracing.{
  SpanCall, Traced, tracing_enabled, in_span, maybe_span, set_all, set_attrs, mark_rejected,
  annotate, run_gate, then_marked, finish, run_gates_traced, bool_value, float_value, str_value,
  entering, setting, leaving,
}

-- What the span of a gate says of its verdict.
abbrev told : Verdict → List SpanCall
told (err e) = []
told (ok (d, true)) = setting "approved" (bool_value true) ∷ []
told (ok (d, false)) =
    setting "approved" (bool_value false) ∷ setting "reason_code" (str_value d.reason_code) ∷ []

abbrev span_of : String → Verdict → List SpanCall
span_of name v = entering name ∷ (told v ++ (leaving ∷ []))

-- Calls, and others after them if the gate passed.
abbrev followed : List SpanCall → Verdict → List SpanCall → List SpanCall
followed calls (err e) rest = calls
followed calls (ok (d, false)) rest = calls
followed calls (ok (d, true)) rest = calls ++ rest

-- The spans of the gates, in order, up to the first that does not pass.
abbrev pub spans_of : List (String × Verdict) → List SpanCall
spans_of [] = []
spans_of ((name, v) ∷ gates) = followed (span_of name v) v (spans_of gates)

-- The gates that have spans, with what each says to the decision.
abbrev pub named : RiskContext → Trade → RiskDecision → List (String × Verdict)
named ctx trade d =
    ("evaluate_expected_value", evaluate_expected_value ctx trade.expected_value d)
    ∷ ("evaluate_drawdown", evaluate_drawdown ctx trade.daily_realized_pnl trade.equity d)
    ∷ (
      "evaluate_consecutive_losses",
      evaluate_consecutive_losses ctx trade.trade_outcomes trade.current_time d,
    )
    ∷ (
      "evaluate_concentration",
      evaluate_concentration ctx trade.target_family trade.proposed_cost trade.open_positions d,
    )
    ∷ []

-- What the root span says of the answer.
abbrev pub ending : Result RiskDecision → List SpanCall
ending (err e) = []
ending (ok d) =
    if d.approved
    then setting "approved" (bool_value true)
      ∷ setting "suggested_size" (float_value d.suggested_size)
      ∷ []
    else setting "approved" (bool_value false)
      ∷ setting "reason_code" (str_value d.reason_code)
      ∷ []

annotate-told : (v : Verdict) → annotate true v ≡ told v
unfolding annotate set_attrs set_all
annotate-told v = ground arith

run_gate-span_of :
    (provider name : String) (v : Verdict)
    → tracing_enabled provider ≡ true
    → run_gate provider name v ≡ (span_of name v, v)
unfolding run_gate maybe_span in_span
run_gate-span_of provider name v on = rw (on, annotate-told v) refl

mark_rejected-ending :
    (d : RiskDecision) → d.approved ≡ false → mark_rejected true d ≡ ending (ok d)
unfolding mark_rejected set_attrs set_all
mark_rejected-ending d h = ground arith

marked-calls :
    (d : RiskDecision) (calls : List SpanCall) (v : Verdict)
    (next : RiskDecision → Traced RiskDecision) (rest : List SpanCall)
    → Keeps d v
    → (next d).0 ≡ rest ++ ending (next d).1
    → (then_marked true (calls, v) next).0
      ≡ followed calls v rest ++ ending (then_marked true (calls, v) next).1
unfolding then_marked
marked-calls d calls (err e) next rest keeps h = sym (append-nil calls)
marked-calls d calls (ok (x, false)) next rest keeps h =
    ap (λ (l : List SpanCall). calls ++ l) (mark_rejected-ending x keeps.0)
marked-calls d calls (ok (x, true)) next rest keeps h =
    ap (λ (y : RiskDecision). calls ++ (next y).0) keeps
    ∙ ap (λ (l : List SpanCall). calls ++ l) h
    ∙ sym (append_assoc calls rest (ending (next d).1))
    ∙ ap (λ (y : RiskDecision). (calls ++ rest) ++ ending (next y).1) (sym keeps)

-- What follows a gate whose span is known.
then_marked-calls :
    (d : RiskDecision) (t : Traced (RiskDecision × Bool)) (calls : List SpanCall) (v : Verdict)
    (next : RiskDecision → Traced RiskDecision) (rest : List SpanCall)
    → t ≡ (calls, v)
    → Keeps d v
    → (next d).0 ≡ rest ++ ending (next d).1
    → (then_marked true t next).0 ≡ followed calls v rest ++ ending (then_marked true t next).1
then_marked-calls d t calls v next rest e keeps h =
    subst
      (λ s.
        (then_marked true s next).0 ≡ followed calls v rest ++ ending (then_marked true s next).1)
      (sym e) (marked-calls d calls v next rest keeps h)

followed-nil : (v : Verdict) → followed [] v [] ≡ []
followed-nil v = ground arith

finish-calls :
    (ctx : RiskContext) (ns : ℕ) (d : RiskDecision)
    → d.approved ≡ true
    → (finish true ctx ns d).0 ≡ ending (finish true ctx ns d).1
unfolding finish check_latency mark_rejected set_attrs set_all
finish-calls ctx ns d h = ground arith

-- The cluster cap has no span.
cluster-calls :
    (d : RiskDecision) (v : Verdict) (next : RiskDecision → Traced RiskDecision)
    → Keeps d v
    → (next d).0 ≡ ending (next d).1
    → (then_marked true ([], v) next).0 ≡ ending (then_marked true ([], v) next).1
cluster-calls d v next keeps h =
    marked-calls d [] v next [] keeps h
    ∙ ap (λ (l : List SpanCall). l ++ ending (then_marked true ([], v) next).1) (followed-nil v)

pub run_gates_traced-calls :
    (provider : String) (ctx : RiskContext) (trade : Trade) (ns : ℕ) (d : RiskDecision)
    → tracing_enabled provider ≡ true
    → d.approved ≡ true
    → (run_gates_traced true provider ctx trade ns d).0
      ≡ spans_of (named ctx trade d) ++ ending (run_gates_traced true provider ctx trade ns d).1
unfolding run_gates_traced
run_gates_traced-calls provider ctx trade ns d on fresh =
    let (ev, (dd, (cl, (co, (cc_, _))))) = verdicts-Keep ctx trade d in
    then_marked-calls d _ _ _ _ _ (run_gate-span_of provider _ _ on) ev (
      then_marked-calls d _ _ _ _ _ (run_gate-span_of provider _ _ on) dd (
        then_marked-calls d _ _ _ _ _ (run_gate-span_of provider _ _ on) cl (
          then_marked-calls d _ _ _ _ _ (run_gate-span_of provider _ _ on) co
            (cluster-calls d _ _ cc_ (finish-calls ctx ns d fresh)))))
