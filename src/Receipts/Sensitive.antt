-- ===== src/Receipts/Sensitive.antt =====
-- Which keys of a value are looked at, and which requests get a receipt.

use verdict_risk.Py.Except.{Result, raise_if, ◌>>◌, ok}
use verdict_risk.Prelude.{
  sym, ◌∙◌, Bool-cases, All, String, ◌≡◌, refl, ◌↔◌, inl, inr, Bool, false, List, [], ◌∷◌, ◌++◌,
  arith,
}
use verdict_risk.Receipts.{
  mapping, sequence, scalar, no_fields, field, other_field, key_text, no_items, item, Value, Fields,
  Items, reject_sensitive, reject_fields, reject_items, is_sensitive, refuse_field, ReceiptRequest,
  Receipt, or_empty, build_risk_receipt,
}

-- The texts of all keys of a value, in the order in which they stand.
unfoldable mutual
  pub keys_of : Value → List String
  keys_of (mapping fields) = keys_of_fields fields
  keys_of (sequence items) = keys_of_items items
  keys_of (scalar s) = []

  pub keys_of_fields : Fields → List String
  keys_of_fields no_fields = []
  keys_of_fields (field key child rest) = key ∷ (keys_of child ++ keys_of_fields rest)
  keys_of_fields (other_field key child rest) =
      key_text key ∷ (keys_of child ++ keys_of_fields rest)

  pub keys_of_items : Items → List String
  keys_of_items no_items = []
  keys_of_items (item child rest) = keys_of child ++ keys_of_items rest

-- The exception for the first sensitive key, if there is one.
abbrev pub refuse_first : (String → String) → List String → Result (Unit {0})
refuse_first normalize [] = ok tt
refuse_first normalize (key ∷ keys) =
    raise_if (is_sensitive normalize key) (refuse_field key) >> refuse_first normalize keys

refuse_first-append :
    (normalize : String → String) (xs ys : List String)
    → refuse_first normalize (xs ++ ys) ≡ (refuse_first normalize xs >> refuse_first normalize ys)
refuse_first-append normalize [] ys = refl
refuse_first-append normalize (x ∷ xs) ys = elim (Bool-cases (is_sensitive normalize x)) [
  | inl bad ↦ rw bad
  | inr good ↦ rw good (refuse_first-append normalize xs ys)
]

mutual
  unfolding reject_sensitive reject_fields reject_items keys_of keys_of_fields keys_of_items

  rejects :
      (normalize : String → String) (v : Value)
      → reject_sensitive normalize v ≡ refuse_first normalize (keys_of v)
  rejects normalize (mapping fields) = rejects_fields normalize fields
  rejects normalize (sequence items) = rejects_items normalize items
  rejects normalize (scalar s) = refl

  rejects_fields :
      (normalize : String → String) (fields : Fields)
      → reject_fields normalize fields ≡ refuse_first normalize (keys_of_fields fields)
  rejects_fields normalize no_fields = refl
  rejects_fields normalize (field key child rest) = rw (
    rejects normalize child,
    rejects_fields normalize rest,
    refuse_first-append normalize (keys_of child) (keys_of_fields rest),
  )
  rejects_fields normalize (other_field key child rest) = rw (
    rejects normalize child,
    rejects_fields normalize rest,
    refuse_first-append normalize (keys_of child) (keys_of_fields rest),
  )

  rejects_items :
      (normalize : String → String) (items : Items)
      → reject_items normalize items ≡ refuse_first normalize (keys_of_items items)
  rejects_items normalize no_items = refl
  rejects_items normalize (item child rest) = rw (
    rejects normalize child,
    rejects_items normalize rest,
    refuse_first-append normalize (keys_of child) (keys_of_items rest),
  )

-- Walking a value raises for the first sensitive key among all its keys, at whatever depth, in the
-- order in which they stand, and returns if there is none.
pub reject_sensitive_lem :
    (normalize : String → String) (v : Value)
    → reject_sensitive normalize v ≡ refuse_first normalize (keys_of v)
reject_sensitive_lem normalize v = rejects normalize v

abbrev pub AllHarmless : (String → String) → List String → Type 0
AllHarmless normalize = All (λ key. is_sensitive normalize key ≡ false)

refuse_first-AllHarmless :
    (normalize : String → String) (keys : List String)
    → (refuse_first normalize keys ≡ ok tt) ↔ AllHarmless normalize keys
refuse_first-AllHarmless normalize [] = ground arith
refuse_first-AllHarmless normalize (key ∷ keys) =
    ground (arith, refuse_first-AllHarmless normalize keys)

reject_sensitive-AllHarmless :
    (normalize : String → String) (fields : Fields)
    → reject_sensitive normalize (mapping fields) ≡ ok tt
    → AllHarmless normalize (keys_of_fields fields)
unfolding keys_of
reject_sensitive-AllHarmless normalize fields e =
    (refuse_first-AllHarmless normalize (keys_of_fields fields)).0
      (sym (rejects normalize (mapping fields)) ∙ e)

reject_sensitive_iff :
    (normalize : String → String) (fields : Fields)
    → (reject_sensitive normalize (mapping fields) ≡ ok tt)
      ↔ AllHarmless normalize (keys_of_fields fields)
unfolding keys_of
reject_sensitive_iff normalize fields = (
  reject_sensitive-AllHarmless normalize fields,
  λ h.
      rejects normalize (mapping fields)
      ∙ (refuse_first-AllHarmless normalize (keys_of_fields fields)).1 h,
)

-- The receipt of a request, by its two hashes.
abbrev pub receipt_of : ReceiptRequest → String → String → Receipt
receipt_of request inputs_hash config_hash = record {
  schema_version = "1";
  run_id = request.run_id;
  provider = "verdict-risk";
  provider_version = "0.1.0";
  inputs_hash = inputs_hash;
  config_hash = config_hash;
  outcome = request.outcome;
  provenance = or_empty request.provenance;
  evidence_refs = request.evidence_refs;
  details = or_empty request.details;
}

-- A request gets a receipt exactly if its run and its outcome are not blank, neither its
-- provenance nor its details have a sensitive key, at whatever depth and of whatever type, and
-- hashing its inputs and its configuration returns; it is then the receipt with these two hashes
-- and the rest of the request.
pub build_risk_receipt_iff :
    (is_blank : String → Bool) (normalize : String → String) (hash : Value → Result String)
    (request : ReceiptRequest) (receipt : Receipt)
    → (build_risk_receipt is_blank normalize hash request ≡ ok receipt) ↔ (
        (is_blank request.run_id ≡ false)
        × (is_blank request.outcome ≡ false)
        × AllHarmless normalize (keys_of_fields (or_empty request.provenance))
        × AllHarmless normalize (keys_of_fields (or_empty request.details))
        × (hash request.inputs ≡ ok receipt.inputs_hash)
        × (hash request.config ≡ ok receipt.config_hash)
        × (receipt ≡ receipt_of request receipt.inputs_hash receipt.config_hash))
unfolding build_risk_receipt
build_risk_receipt_iff is_blank normalize hash request receipt =
    let p = reject_sensitive_iff normalize (or_empty request.provenance) in
    let d = reject_sensitive_iff normalize (or_empty request.details) in
    (λ e. ground (arith, p, d), λ (run, outcome, hp, hd, i, c, of). ground (arith, p.1 hp, d.1 hd))
