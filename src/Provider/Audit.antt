-- ===== src/Provider/Audit.antt =====
-- What the hashes of a receipt say of the decision.

use verdict_risk.Engine.Authority.{Evaluation}
use verdict_risk.Receipts.{Value, ReceiptRequest, Receipt, build_risk_receipt}
use verdict_risk.Provider.Advisory.{SameDecision}
use verdict_risk.Provider.{gate_report, decide}
use verdict_risk.Py.Except.Ensures.{ok_of_bind, ok_injective}
use verdict_risk.Py.Except.{Result, ok}
use verdict_risk.Provider.Evaluate.{
  hash, Runtime, RiskProviderResult, RiskProvider, items_of, position_value, trade_outcome_value,
  current_time_value, inputs_of, config_of, receipt_request, conclude, evaluate,
}
use verdict_risk.Provider.Request.{RiskProviderRequest}
use verdict_risk.State.{RiskContext, Position, RiskDecision, TradeOutcome}
use verdict_risk.Py.Time.{Datetime}
use verdict_risk.Prelude.{
  if◌then◌else◌, ℕ, String, ◌≡◌, refl, sym, ap, ◌∙◌, subst, ◌⊎◌, inl, inr, Option, none, some, List,
  [], ◌∷◌, arith,
}

abbrev Occurs : Datetime → List TradeOutcome → Type 0
Occurs a [] = ⊥
Occurs a (o ∷ os) = (o.timestamp ≡ a) ⊎ Occurs a os

-- A datetime of the request.
abbrev pub IsWritten : Datetime → RiskProviderRequest → Type 0
IsWritten a request = Occurs a request.trade_outcomes ⊎ (request.current_time ≡ some a)

-- Different datetimes of the two requests are written differently, as `isoformat` does where each
-- `tzinfo` has an offset.
abbrev pub TellsApart : (Datetime → String) → RiskProviderRequest → RiskProviderRequest → Type 0
TellsApart isoformat r s =
    (a b : Datetime) → IsWritten a r → IsWritten b s → isoformat a ≡ isoformat b → a ≡ b

position_value-injective : (p q : Position) → position_value p ≡ position_value q → p ≡ q
position_value-injective p q e = ground arith

positions-injective :
    (ps qs : List Position) → items_of position_value ps ≡ items_of position_value qs → ps ≡ qs
positions-injective [] [] e = refl
positions-injective [] (q ∷ qs) e = absurd (cc)
positions-injective (p ∷ ps) [] e = absurd (cc)
positions-injective (p ∷ ps) (q ∷ qs) e =
    ground (arith, e, position_value-injective p q, positions-injective ps qs)

outcomes-injective :
    (isoformat : Datetime → String) (os qs : List TradeOutcome)
    → ((a b : Datetime) → Occurs a os → Occurs b qs → isoformat a ≡ isoformat b → a ≡ b)
    → items_of (trade_outcome_value isoformat) os ≡ items_of (trade_outcome_value isoformat) qs
    → os ≡ qs
outcomes-injective isoformat [] [] tells e = refl
outcomes-injective isoformat [] (q ∷ qs) tells e = absurd (cc)
outcomes-injective isoformat (o ∷ os) [] tells e = absurd (cc)
outcomes-injective isoformat (o ∷ os) (q ∷ qs) tells e = ground (
  arith,
  e,
  tells o.timestamp q.timestamp (inl refl) (inl refl),
  outcomes-injective isoformat os qs (λ a b w v. tells a b (inr w) (inr v)),
)

current_time-injective :
    (isoformat : Datetime → String) (a b : Option Datetime)
    → ((x y : Datetime) → a ≡ some x → b ≡ some y → isoformat x ≡ isoformat y → x ≡ y)
    → current_time_value isoformat a ≡ current_time_value isoformat b
    → a ≡ b
current_time-injective isoformat none none tells e = refl
current_time-injective isoformat none (some b) tells e = absurd (cc)
current_time-injective isoformat (some a) none tells e = absurd (cc)
current_time-injective isoformat (some a) (some b) tells e =
    ap some (tells a b refl refl (ground arith))

-- The requests are the same but for the run and the hints.
abbrev pub SameInputs : RiskProviderRequest → RiskProviderRequest → Type 0
SameInputs r s = record r { run_id = s.run_id; advisory = s.advisory } ≡ s

inputs_of-injective :
    (isoformat : Datetime → String) (r s : RiskProviderRequest)
    → TellsApart isoformat r s
    → inputs_of isoformat r ≡ inputs_of isoformat s
    → SameInputs r s
unfolding inputs_of
inputs_of-injective isoformat r s tells e = ground (
  arith,
  e,
  positions-injective r.open_positions s.open_positions,
  outcomes-injective isoformat r.trade_outcomes s.trade_outcomes
      (λ a b w v. tells a b (inl w) (inl v)),
  current_time-injective isoformat r.current_time s.current_time
      (λ a b w v. tells a b (inr w) (inr v)),
)

config_of-injective : (c d : RiskContext) → config_of c ≡ config_of d → c ≡ d
unfolding config_of
config_of-injective c d e = ground (arith, e)

-- What a result and its receipt are made of.
abbrev MadeOf :
    Runtime → RiskContext → RiskProviderRequest → RiskDecision → RiskProviderResult → Type 0
MadeOf runtime ctx request decision x =
    (gate_report ctx request ≡ ok x.gate_outcomes)
    × (decision.approved ≡ x.approved)
    × (decision.reason_code ≡ x.reason_code)
    × (decision.suggested_size ≡ x.suggested_size)
    × ((if decision.approved then "approved" else "rejected") ≡ x.receipt.outcome)
    × (hash runtime (inputs_of runtime.isoformat request) ≡ ok x.receipt.inputs_hash)
    × (hash runtime (config_of ctx) ≡ ok x.receipt.config_hash)

build_risk_receipt-hashes :
    (runtime : Runtime) (request : ReceiptRequest) (r : Receipt)
    → build_risk_receipt runtime.is_blank runtime.normalize (hash runtime) request ≡ ok r
    → (request.outcome ≡ r.outcome)
      × (hash runtime request.inputs ≡ ok r.inputs_hash)
      × (hash runtime request.config ≡ ok r.config_hash)
unfolding build_risk_receipt
build_risk_receipt-hashes runtime request r h = ground arith

conclude-MadeOf :
    (runtime : Runtime) (ctx : RiskContext) (request : RiskProviderRequest) (total_ns : ℕ)
    (decision : RiskDecision) (x : RiskProviderResult)
    → conclude runtime ctx request total_ns decision ≡ ok x
    → MadeOf runtime ctx request decision x
unfolding conclude receipt_request
conclude-MadeOf runtime ctx request total_ns decision x h =
    let (gates, e, k) = ok_of_bind (gate_report ctx request) _ x h in
    let made = receipt_request runtime.isoformat ctx request decision gates in
    let (receipt, e', l) = ok_of_bind (build_risk_receipt _ _ _ made) _ x k in
    let (o, i, c) = build_risk_receipt-hashes runtime made receipt e' in
    subst (MadeOf runtime ctx request decision) (ok_injective _ x l) (e, refl, refl, refl, o, i, c)

evaluate-MadeOf :
    (runtime : Runtime) (p : RiskProvider) (request : RiskProviderRequest) (elapsed_ns total_ns : ℕ)
    (x : RiskProviderResult)
    → (evaluate runtime p request elapsed_ns total_ns).answer ≡ ok x
    → (d : RiskDecision) × ((decide p.authority p.ctx request elapsed_ns).answer ≡ ok d)
      × MadeOf runtime p.ctx request d x
unfolding evaluate
evaluate-MadeOf runtime p request elapsed_ns total_ns x h =
    let (d, e, k) = ok_of_bind (decide p.authority p.ctx request elapsed_ns).answer _ x h in
    (d, e, conclude-MadeOf runtime p.ctx request total_ns d x k)

-- The hash has no collision at these two values: they are the same if one text is the hash of both.
abbrev pub NoCollision : (Value → Result String) → Value → Value → Type 0
NoCollision digest v w = (h : String) → digest v ≡ ok h → digest w ≡ ok h → v ≡ w

same_answers :
    (p q : RiskProvider) (r s : RiskProviderRequest) (elapsed_ns : ℕ)
    → p.authority ≡ q.authority
    → p.ctx ≡ q.ctx
    → SameInputs r s
    → (decide p.authority p.ctx r elapsed_ns ≡ decide q.authority q.ctx s elapsed_ns)
      × (gate_report p.ctx r ≡ gate_report q.ctx s)
unfolding decide gate_report
same_answers p q r s elapsed_ns a c i =
    let r' = record r { run_id = s.run_id; advisory = s.advisory } in
    (
      ap (λ b. decide b p.ctx r' elapsed_ns) a
          ∙ ap (λ b. decide q.authority b r' elapsed_ns) c
          ∙ ap (λ b. decide q.authority q.ctx b elapsed_ns) i,
      ap (λ b. gate_report b r') c ∙ ap (gate_report q.ctx) i,
    )

-- If two results carry the same hashes of inputs and configuration, they decide the same, with the
-- same report and outcome: where the hash has no collision at the two inputs and the two
-- configurations, isoformat writes different datetimes of the requests differently, the two
-- authorities are the same, and so is the time that the engine took.
pub evaluate-receipts :
    (runtime : Runtime) (p q : RiskProvider) (r s : RiskProviderRequest)
    (elapsed_ns total_ns total_ns' : ℕ) (x y : RiskProviderResult)
    → TellsApart runtime.isoformat r s
    → NoCollision (hash runtime) (inputs_of runtime.isoformat r) (inputs_of runtime.isoformat s)
    → NoCollision (hash runtime) (config_of p.ctx) (config_of q.ctx)
    → p.authority ≡ q.authority
    → (evaluate runtime p r elapsed_ns total_ns).answer ≡ ok x
    → (evaluate runtime q s elapsed_ns total_ns').answer ≡ ok y
    → x.receipt.inputs_hash ≡ y.receipt.inputs_hash
    → x.receipt.config_hash ≡ y.receipt.config_hash
    → SameDecision x y
evaluate-receipts runtime p q r s elapsed_ns total_ns total_ns' x y tells inputs config same e e' i
      c =
    let (d, answer, (gates, approved, reason, size, outcome, ih, ch)) =
      evaluate-MadeOf runtime p r elapsed_ns total_ns x e in
    let (d', answer', (gates', approved', reason', size', outcome', ih', ch')) =
      evaluate-MadeOf runtime q s elapsed_ns total_ns' y e' in
    let same_inputs =
      inputs_of-injective runtime.isoformat r s tells
        (inputs y.receipt.inputs_hash (ih ∙ ap ok i) ih') in
    let ctx = config_of-injective p.ctx q.ctx (config y.receipt.config_hash (ch ∙ ap ok c) ch') in
    let (decided, reported) = same_answers p q r s elapsed_ns same ctx same_inputs in
    let same_d =
      ok_injective d d' (sym answer ∙ ap (λ (m : Evaluation). m.answer) decided ∙ answer') in
    (
      sym approved ∙ ap (λ (z : RiskDecision). z.approved) same_d ∙ approved',
      sym reason ∙ ap (λ (z : RiskDecision). z.reason_code) same_d ∙ reason',
      sym size ∙ ap (λ (z : RiskDecision). z.suggested_size) same_d ∙ size',
      ok_injective x.gate_outcomes y.gate_outcomes (sym gates ∙ reported ∙ gates'),
      sym outcome
          ∙ ap (λ (z : RiskDecision). if z.approved then "approved" else "rejected") same_d
          ∙ outcome',
      c,
    )
