-- ===== src/Provider/Returns.antt =====
-- When an evaluation returns a result.

use verdict_risk.Py.Except.Ensures.{ok_of_bind}
use verdict_risk.Provider.Boundary.{request_init_iff}
use verdict_risk.Provider.Agreement.{decide-gate_report}
use verdict_risk.Provider.Request.{RequestArguments, RiskProviderRequest, request_init}
use verdict_risk.Engine.Authority.Stateful.{evaluate_with_state_plain}
use verdict_risk.Engine.Chain.Answer.{evaluate_stateless-returns}
use verdict_risk.State.{RiskContext, RiskDecision}
use verdict_risk.Py.Except.{ok}
use verdict_risk.Prelude.{
  if◌then◌else◌, Bool-cases, All, any, All-append, ℕ, String, ◌≡◌, refl, ◌↔◌, ◌⊎◌, inl, inr, true,
  false, Option, none, some, List, [], ◌∷◌, ◌++◌, arith,
}
use verdict_risk.Receipts.{
  Fields, sensitive_keys, is_sensitive, Receipt, build_risk_receipt, no_fields, field, other_field,
  hash_of, Value,
}
use verdict_risk.Receipts.Sensitive.{
  keys_of, keys_of_fields, keys_of_items, AllHarmless, receipt_of, build_risk_receipt_iff,
}
use verdict_risk.Provider.{GateOutcome, trade_of, decide}
use verdict_risk.Provider.Evaluate.{
  hash, Runtime, RiskProviderResult, RiskProvider, items_of, advisory_value, gate_outcome_value,
  details_of, receipt_request, inputs_of, config_of, conclude, evaluate,
}
use text.Mathlib.Text.{◌==◌ as str_eq}

-- The keys that the provider writes itself.
abbrev pub own_keys : List String
own_keys = "advisory" ∷ "reason_code" ∷ "gate_outcomes" ∷ "gate" ∷ "approved" ∷ "api_version" ∷ []

-- A runtime for which the words of the provider are not blank, and for which its own keys are in lower
-- case and without dashes.
abbrev pub IsPlain : Runtime → Type 0
IsPlain runtime =
    (runtime.is_blank "approved" ≡ false)
    × (runtime.is_blank "rejected" ≡ false)
    × All (λ key. runtime.normalize key ≡ key) own_keys

abbrev pub HintsHarmless : (String → String) → Option Fields → Type 0
HintsHarmless normalize none = Unit
HintsHarmless normalize (some hints) = AllHarmless normalize (keys_of_fields hints)

own_key :
    (normalize : String → String) (key : String)
    → any (str_eq key) sensitive_keys ≡ false
    → normalize key ≡ key
    → is_sensitive normalize key ≡ false
unfolding is_sensitive
own_key normalize key plain same = rw same plain

harmless_reports :
    (runtime : Runtime) (report : List GateOutcome)
    → IsPlain runtime
    → AllHarmless runtime.normalize (keys_of_items (items_of gate_outcome_value report))
unfolding keys_of_items keys_of keys_of_fields
harmless_reports runtime [] h = tt
harmless_reports runtime (o ∷ report) h =
    let (_, _, (_, (r, (_, (g, (a, _)))))) = h in
    (
      own_key runtime.normalize "gate" refl g,
      (
        own_key runtime.normalize "approved" refl a,
        (own_key runtime.normalize "reason_code" refl r, harmless_reports runtime report h),
      ),
    )

hints_iff :
    (runtime : Runtime) (hints : Option Fields)
    → AllHarmless runtime.normalize (keys_of (advisory_value hints))
      ↔ HintsHarmless runtime.normalize hints
unfolding keys_of keys_of_fields
hints_iff runtime none = ground arith
hints_iff runtime (some no_fields) = ground arith
hints_iff runtime (some (field key child rest)) = (λ h. h, λ h. h)
hints_iff runtime (some (other_field key child rest)) = (λ h. h, λ h. h)

details_iff :
    (runtime : Runtime) (hints : Option Fields) (reason : String) (report : List GateOutcome)
    → IsPlain runtime
    → AllHarmless runtime.normalize (keys_of_fields (details_of hints reason report))
      ↔ HintsHarmless runtime.normalize hints
unfolding keys_of_items keys_of keys_of_fields details_of
details_iff runtime hints reason report h =
    let (_, _, (ad, (r, (g, (_, (_, (v, _))))))) = h in
    let P = λ (key : String). is_sensitive runtime.normalize key ≡ false in
    let reports = keys_of_items (items_of gate_outcome_value report) in
    let split =
      All-append P (keys_of (advisory_value hints))
        ("reason_code" ∷ "gate_outcomes" ∷ (reports ++ "api_version" ∷ [])) in
    (
      λ (_, every). (hints_iff runtime hints).0 (split.0 every).0,
      λ fine. (
        own_key runtime.normalize "advisory" refl ad,
        split.1 (
          (hints_iff runtime hints).1 fine,
          (
            own_key runtime.normalize "reason_code" refl r,
            (
              own_key runtime.normalize "gate_outcomes" refl g,
              (All-append P reports ("api_version" ∷ [])).1 (
                harmless_reports runtime report h,
                (own_key runtime.normalize "api_version" refl v, tt),
              ),
            ),
          ),
        ),
      ),
    )

-- The value has a canonical JSON text.
abbrev pub Dumps : Runtime → Value → Type 0
Dumps runtime value = (text : String) × (runtime.dumps value ≡ ok text)

hash-Dumps :
    (runtime : Runtime) (value : Value) (digest : String)
    → hash runtime value ≡ ok digest
    → Dumps runtime value
unfolding hash_of
hash-Dumps runtime value digest h =
    let (text, e, _) = ok_of_bind (runtime.dumps value) _ digest h in (text, e)

Dumps-hash :
    (runtime : Runtime) (value : Value)
    → Dumps runtime value
    → (digest : String) × (hash runtime value ≡ ok digest)
unfolding hash_of
Dumps-hash runtime value (text, e) = rw e (_, refl)

receipt_iff :
    (runtime : Runtime) (ctx : RiskContext) (request : RiskProviderRequest)
    (decision : RiskDecision) (report : List GateOutcome)
    → IsPlain runtime
    → runtime.is_blank request.run_id ≡ false
    → ((receipt : Receipt) × (build_risk_receipt runtime.is_blank runtime.normalize
            (hash runtime)
            (receipt_request runtime.isoformat ctx request decision report)
          ≡ ok receipt))
      ↔ (HintsHarmless runtime.normalize request.advisory
          × Dumps runtime (inputs_of runtime.isoformat request)
          × Dumps runtime (config_of ctx))
unfolding receipt_request keys_of_fields
receipt_iff runtime ctx request decision report plain named =
    let made = receipt_request runtime.isoformat ctx request decision report in
    let built = build_risk_receipt_iff runtime.is_blank runtime.normalize (hash runtime) made in
    let shown = details_iff runtime request.advisory decision.reason_code report plain in
    (
      λ (receipt, e).
          let (_, _, _, d, i, c, _) = (built receipt).0 e in
          (
            shown.0 d,
            hash-Dumps runtime made.inputs receipt.inputs_hash i,
            hash-Dumps runtime made.config receipt.config_hash c,
          ),
      λ (fine, inputs, config).
          let (i, ei) = Dumps-hash runtime made.inputs inputs in
          let (c, ec) = Dumps-hash runtime made.config config in
          let receipt = receipt_of made i c in
          (
            receipt,
            (built receipt).1
                (named, spoken (Bool-cases decision.approved), tt, shown.1 fine, ei, ec, refl),
          ),
    )
  where
    spoken :
        (decision.approved ≡ true) ⊎ (decision.approved ≡ false)
        → runtime.is_blank (if decision.approved then "approved" else "rejected") ≡ false
    spoken (inl h) = rw h plain.0
    spoken (inr h) = rw h plain.1

-- For a request that its construction accepted, and a provider without stateful gates, an
-- evaluation returns a result exactly when the advisory hints have no sensitive key, at whatever
-- depth, and json.dumps returns a text for the inputs, hints included, and for the configuration,
-- as it does not for keys that it cannot sort or write. The runtime takes the words approved and
-- rejected for not blank, and leaves the keys that the provider writes as they are.
pub evaluate_returns_iff :
    (runtime : Runtime) (provider : RiskProvider) (args : RequestArguments)
    (request : RiskProviderRequest) (elapsed_ns total_ns : ℕ)
    → IsPlain runtime
    → provider.authority.kill_switch ≡ none
    → provider.authority.timed_breaker ≡ none
    → provider.authority.consecutive_loss_gate ≡ none
    → request_init runtime.is_blank args ≡ ok request
    → ((result : RiskProviderResult) × ((evaluate runtime provider request elapsed_ns
            total_ns).answer
          ≡ ok result))
      ↔ (HintsHarmless runtime.normalize request.advisory
          × Dumps runtime (inputs_of runtime.isoformat request)
          × Dumps runtime (config_of provider.ctx))
unfolding evaluate conclude decide
evaluate_returns_iff runtime provider args request elapsed_ns total_ns plain k t l h =
    let (run, _, _, _, (_, _, _, f), _, _, _, _, _) =
      (request_init_iff runtime.is_blank args request).0 h in
    let (decision, e) =
      evaluate_stateless-returns provider.ctx (trade_of request) elapsed_ns f refl in
    let whole =
      evaluate_with_state_plain provider.authority provider.ctx (trade_of request) elapsed_ns k t
        l in
    let (report, made, _, named) =
      decide-gate_report provider.authority provider.ctx request elapsed_ns k t l f in
    let issued = receipt_iff runtime provider.ctx request decision report plain run.1 in
    rw (whole, e, made)
      (
        λ (result, r). let (receipt, b, _) = ok_of_bind _ _ result r in issued.0 (receipt, b),
        λ fine. let (receipt, b) = issued.1 fine in rw b (_, refl),
      )
