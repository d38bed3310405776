-- ===== src/Provider/Advisory.antt =====
-- What the advisory hints of a request can change, and what they cannot.

use verdict_risk.Py.Except.Ensures.{ok_of_bind, ok_injective}
use verdict_risk.Engine.Authority.{init, Evaluation}
use verdict_risk.Engine.Chain.Approval.{evaluate_stateless_bad_cost}
use verdict_risk.Engine.Chain.Answer.{IsAnswer, evaluate_stateless-IsAnswer}
use verdict_risk.Engine.Chain.{evaluate_stateless}
use verdict_risk.Gates.Pass.{approval}
use verdict_risk.Py.Float.{is_finite}
use verdict_risk.Provider.Agreement.{AllApproved, decide-gate_report}
use verdict_risk.Engine.Authority.Stateful.{
  KeepsRejections, evaluate_with_state_plain, KillSwitchPasses, TimedBreakerPasses, LossGatePasses,
  evaluate_with_state_sound,
}
use verdict_risk.State.{risk_state_schema_version, RiskContext, RiskDecision}
use verdict_risk.Prelude.{
  Bool-cases, ◌≤ℤ◌, pos, ℕ, ◌/◌, String, ◌≡◌, refl, sym, ap, ◌∙◌, subst, ◌⊎◌, inl, inr, true, false,
  Option, none, List, arith,
}
use verdict_risk.Py.Except.{Result, ◌>>=◌, err, ok}
use verdict_risk.Receipts.{Fields, ReceiptRequest, Receipt, build_risk_receipt}
use verdict_risk.Provider.Request.{RiskProviderRequest}
use verdict_risk.Provider.{GateOutcome, gate_report, trade_of, decide}
use verdict_risk.Provider.Evaluate.{
  hash, Runtime, provider_api_version, RiskProviderResult, RiskProvider, receipt_request, conclude,
  evaluate,
}

-- Results that decide the same, on the same report and configuration.
abbrev pub SameDecision : RiskProviderResult → RiskProviderResult → Type 0
SameDecision x y =
    (x.approved ≡ y.approved)
    × (x.reason_code ≡ y.reason_code)
    × (x.suggested_size ≡ y.suggested_size)
    × (x.gate_outcomes ≡ y.gate_outcomes)
    × (x.receipt.outcome ≡ y.receipt.outcome)
    × (x.receipt.config_hash ≡ y.receipt.config_hash)

-- Where both return.
abbrev pub Agree : Result RiskProviderResult → Result RiskProviderResult → Type 0
Agree (ok x) (ok y) = SameDecision x y
Agree (ok x) (err e) = Unit
Agree (err e) y = Unit

Agree-bind :
    {A : Type 0} (m : Result A) (f g : A → Result RiskProviderResult)
    → ((a : A) → Agree (f a) (g a))
    → Agree (m >>= f) (m >>= g)
Agree-bind (err e) f g h = tt
Agree-bind (ok a) f g h = h a

-- What follows the receipt.
abbrev result_of : RiskDecision → List GateOutcome → ℕ → Receipt → RiskProviderResult
result_of decision gate_outcomes total_ns receipt = record {
  approved = decision.approved;
  reason_code = decision.reason_code;
  suggested_size = decision.suggested_size;
  gate_outcomes = gate_outcomes;
  state_schema_version = risk_state_schema_version;
  elapsed_us = total_ns / 1000;
  receipt = receipt;
  api_version = provider_api_version;
}

abbrev HasOutcome : String → Result String → Receipt → Type 0
HasOutcome outcome config_hash r = (r.outcome ≡ outcome) × (ok r.config_hash ≡ config_hash)

build_risk_receipt-HasOutcome :
    (runtime : Runtime) (request : ReceiptRequest) (r : Receipt)
    → build_risk_receipt runtime.is_blank runtime.normalize (hash runtime) request ≡ ok r
    → HasOutcome request.outcome (hash runtime request.config) r
unfolding build_risk_receipt
build_risk_receipt-HasOutcome runtime request r h = ground arith

results-Agree :
    (decision : RiskDecision) (gate_outcomes : List GateOutcome) (total_ns : ℕ) (outcome : String)
    (config_hash : Result String) (m n : Result Receipt)
    → ((r : Receipt) → m ≡ ok r → HasOutcome outcome config_hash r)
    → ((r : Receipt) → n ≡ ok r → HasOutcome outcome config_hash r)
    → Agree
        (m >>= λ r. ok (result_of decision gate_outcomes total_ns r))
        (n >>= λ r. ok (result_of decision gate_outcomes total_ns r))
results-Agree decision gate_outcomes total_ns outcome config_hash (err e) n h k = tt
results-Agree decision gate_outcomes total_ns outcome config_hash (ok r) (err e) h k = tt
results-Agree decision gate_outcomes total_ns outcome config_hash (ok r) (ok s) h k =
    let (o, c) = h r refl in
    let (o', c') = k s refl in
    (refl, refl, refl, refl, o ∙ sym o', ok_injective r.config_hash s.config_hash (c ∙ sym c'))

conclude-Agree :
    (runtime : Runtime) (ctx : RiskContext) (request : RiskProviderRequest) (hints : Option Fields)
    (total_ns : ℕ) (decision : RiskDecision)
    → Agree
        (conclude runtime ctx request total_ns decision)
        (conclude runtime ctx (record request { advisory = hints }) total_ns decision)
unfolding conclude gate_report receipt_request
conclude-Agree runtime ctx request hints total_ns decision =
    Agree-bind (gate_report ctx request) _ _ (λ gate_outcomes.
      let one = receipt_request runtime.isoformat ctx request decision gate_outcomes in
      let two =
        receipt_request runtime.isoformat ctx (record request { advisory = hints }) decision
          gate_outcomes in
      results-Agree decision gate_outcomes total_ns one.outcome (hash runtime one.config) _ _
        (build_risk_receipt-HasOutcome runtime one) (build_risk_receipt-HasOutcome runtime two))

-- The advisory hints cannot weaken the policy: whatever they are replaced by, the evaluation
-- leaves the same provider and makes the same calls of the callback, and where both return, the
-- decision, its reason and size, the report, the outcome and the hash of the configuration are the
-- same.
pub evaluate_advisory :
    (runtime : Runtime) (provider : RiskProvider) (request : RiskProviderRequest)
    (hints : Option Fields) (elapsed_ns total_ns : ℕ)
    → let one = evaluate runtime provider request elapsed_ns total_ns in
      let two =
        evaluate runtime provider (record request { advisory = hints }) elapsed_ns total_ns in
      (one.provider ≡ two.provider) × (one.calls ≡ two.calls) × Agree one.answer two.answer
unfolding evaluate decide
evaluate_advisory runtime provider request hints elapsed_ns total_ns = (
  refl,
  refl,
  Agree-bind (decide provider.authority provider.ctx request elapsed_ns).answer _ _
      (conclude-Agree runtime provider.ctx request hints total_ns),
)

concluded :
    (runtime : Runtime) (ctx : RiskContext) (request : RiskProviderRequest) (total_ns : ℕ)
    (decision : RiskDecision) (result : RiskProviderResult)
    → conclude runtime ctx request total_ns decision ≡ ok result
    → (gate_report ctx request ≡ ok result.gate_outcomes)
      × (decision.approved ≡ result.approved)
      × (decision.suggested_size ≡ result.suggested_size)
unfolding conclude
concluded runtime ctx request total_ns decision result h =
    let (gates, e, k) = ok_of_bind (gate_report ctx request) _ result h in
    let (receipt, e', l) = ok_of_bind (build_risk_receipt _ _ _ _) _ result k in
    let same = ok_injective (result_of decision gates total_ns receipt) result l in
    (
      e ∙ ap (λ (r : RiskProviderResult). ok r.gate_outcomes) same,
      ap (λ r. r.approved) same,
      ap (λ r. r.suggested_size) same,
    )

-- An approval of the pure gates, and the report of them.
approved_report :
    (ctx : RiskContext) (request : RiskProviderRequest) (ns : ℕ) (decision : RiskDecision)
    (report : List GateOutcome)
    → evaluate_stateless ctx (trade_of request) ns ≡ ok decision
    → decision.approved ≡ true
    → gate_report ctx request ≡ ok report
    → AllApproved report
      × (pos (ns / 1000) ≤ℤ ctx.latency_budget_us)
      × (decision.suggested_size ≡ request.proposed_cost)
unfolding decide init
approved_report ctx request ns decision report e good r =
    let plain = init none none none none in
    let f = finite_cost (Bool-cases (is_finite request.proposed_cost)) in
    let same = whole (evaluate_stateless-IsAnswer ctx (trade_of request) ns decision e) in
    let (shown, made, agrees, named) = decide-gate_report plain ctx request ns refl refl refl f in
    let plainly = evaluate_with_state_plain plain ctx (trade_of request) ns refl refl refl in
    let (every, soon) = agrees.0 (ap (λ (v : Evaluation). v.answer) plainly ∙ e ∙ ap ok same) in
    (
      subst AllApproved (ok_injective shown report (sym made ∙ r)) every,
      soon,
      ap (λ (d : RiskDecision). d.suggested_size) same,
    )
  where
    finite_cost :
        (is_finite request.proposed_cost ≡ true) ⊎ (is_finite request.proposed_cost ≡ false)
        → is_finite request.proposed_cost ≡ true
    finite_cost (inl h) = h
    finite_cost (inr h) = absurd (cc (e, evaluate_stateless_bad_cost ctx (trade_of request) ns h))

    whole :
        IsAnswer (approval request.proposed_cost) decision
        → decision ≡ approval request.proposed_cost
    whole h = ground (arith, good)

-- With a callback that keeps rejections, a result that the provider returns as approved has passed
-- every stateful gate that is configured, every entry of its report approves, the engine took at
-- most the latency budget, and the suggested size is the whole cost.
pub evaluate_approved :
    (runtime : Runtime) (provider : RiskProvider) (request : RiskProviderRequest)
    (elapsed_ns total_ns : ℕ) (result : RiskProviderResult)
    → KeepsRejections provider.authority
    → (evaluate runtime provider request elapsed_ns total_ns).answer ≡ ok result
    → result.approved ≡ true
    → let d = approval request.proposed_cost in
      KillSwitchPasses provider.authority.kill_switch
      × TimedBreakerPasses provider.authority.timed_breaker d request.current_time
      × LossGatePasses provider.authority.consecutive_loss_gate d
      × AllApproved result.gate_outcomes
      × (pos (elapsed_ns / 1000) ≤ℤ provider.ctx.latency_budget_us)
      × (result.suggested_size ≡ request.proposed_cost)
unfolding evaluate decide
evaluate_approved runtime provider request elapsed_ns total_ns result keeps h good =
    let decided = decide provider.authority provider.ctx request elapsed_ns in
    let (decision, e, k) = ok_of_bind decided.answer _ result h in
    let (report, same, size) = concluded runtime provider.ctx request total_ns decision result k in
    let (ks, tb, lg, stateless) =
      evaluate_with_state_sound provider.authority provider.ctx (trade_of request) elapsed_ns
        decision keeps e (same ∙ good) in
    let (every, soon, cost) =
      approved_report provider.ctx request elapsed_ns decision result.gate_outcomes stateless
        (same ∙ good) report in
    (ks, tb, lg, every, soon, sym size ∙ cost)
