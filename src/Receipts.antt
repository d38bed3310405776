-- ===== src/Receipts.antt =====
-- src/trade_risk_engine/provider_receipts.py. The functions of Python are parameters: `is_blank` is
-- `not s.strip()`, `normalize` is `text.lower().replace("-", "_")`, `dumps` is `json.dumps` with sorted
-- keys, which may raise (for keys of types that have no order among each other, or that JSON has not),
-- and `sha256` is the hex digest of a text.
pub mod Sensitive
mod Tests
use verdict_risk.Py.Format.{join, str_int, repr}
use verdict_risk.Py.Float.{Float}
use verdict_risk.Prelude.{
  if◌then◌else◌, ℤ, any, String, Bool, ◌||◌, Option, none, some, List, [], ◌∷◌,
}
use verdict_risk.Py.Except.{Exception, Result, raise_if, ◌>>=◌, ◌>>◌, value_error, ok}
use text.Mathlib.Text.{◌==◌ as str_eq}

-- What is neither a mapping nor a sequence.
pub data Scalar : Type 0 where
  string : String → Scalar
  real : Float → Scalar
  whole : ℤ → Scalar
  truth : Bool → Scalar
  null : Scalar

-- A key of a mapping that is no string. Of an object of any other type it has the text.
pub data OtherKey : Type 0 where
  whole_key : ℤ → OtherKey
  real_key : Float → OtherKey
  truth_key : Bool → OtherKey
  null_key : OtherKey
  object_key : String → OtherKey

-- `str(key)`
unfoldable pub key_text : OtherKey → String
key_text (whole_key i) = str_int i
key_text (real_key x) = repr x
key_text (truth_key b) = if b then "True" else "False"
key_text null_key = "None"
key_text (object_key text) = text

-- What a caller passes: a mapping, whose keys are strings or others, a list or tuple, or anything else.
mutual
  pub data Value : Type 0 where
    mapping : Fields → Value
    sequence : Items → Value
    scalar : Scalar → Value

  pub data Fields : Type 0 where
    no_fields : Fields
    field : String → Value → Fields → Fields
    other_field : OtherKey → Value → Fields → Fields

  pub data Items : Type 0 where
    no_items : Items
    item : Value → Items → Items

abbrev pub sensitive_keys : List String
sensitive_keys = "api_key" ∷ "authorization" ∷ "password" ∷ "secret" ∷ "token" ∷ []

unfoldable pub is_sensitive : (String → String) → String → Bool
is_sensitive normalize key = any (str_eq (normalize key)) sensitive_keys

abbrev pub refuse_field : String → Exception
refuse_field key = value_error (join ("sensitive receipt field rejected: " ∷ key ∷ []))

-- `_reject_sensitive`
unfoldable mutual
  pub reject_sensitive : (String → String) → Value → Result (Unit {0})
  reject_sensitive normalize (mapping fields) = reject_fields normalize fields
  reject_sensitive normalize (sequence items) = reject_items normalize items
  reject_sensitive normalize (scalar s) = ok tt

  pub reject_fields : (String → String) → Fields → Result (Unit {0})
  reject_fields normalize no_fields = ok tt
  reject_fields normalize (field key child rest) =
      raise_if (is_sensitive normalize key) (refuse_field key)
      >> (reject_sensitive normalize child >> reject_fields normalize rest)
  reject_fields normalize (other_field key child rest) =
      raise_if (is_sensitive normalize (key_text key)) (refuse_field (key_text key))
      >> (reject_sensitive normalize child >> reject_fields normalize rest)

  pub reject_items : (String → String) → Items → Result (Unit {0})
  reject_items normalize no_items = ok tt
  reject_items normalize (item child rest) =
      reject_sensitive normalize child >> reject_items normalize rest

-- The arguments of `build_risk_receipt`.
pub record ReceiptRequest : Type 0 where
  pub run_id : String
  pub inputs : Value
  pub config : Value
  pub outcome : String
  pub evidence_refs : List String
  pub provenance : Option Fields
  pub details : Option Fields

pub record Receipt : Type 0 where
  pub schema_version : String
  pub run_id : String
  pub provider : String
  pub provider_version : String
  pub inputs_hash : String
  pub config_hash : String
  pub outcome : String
  pub provenance : Fields
  pub evidence_refs : List String
  pub details : Fields

-- `mapping or {}`
abbrev pub or_empty : Option Fields → Fields
or_empty none = no_fields
or_empty (some fields) = fields

-- `_hash`
unfoldable pub hash_of : (Value → Result String) → (String → String) → Value → Result String
hash_of dumps sha256 value = do payload ← dumps value; ok (join ("sha256:" ∷ sha256 payload ∷ []))

-- `hash` is `_hash`.
unfoldable pub build_risk_receipt :
    (String → Bool) → (String → String) → (Value → Result String) → ReceiptRequest → Result Receipt
build_risk_receipt is_blank normalize hash request = do
  raise_if (is_blank request.run_id || is_blank request.outcome)
      (value_error "run_id and outcome must be non-empty")
  reject_sensitive normalize (mapping (or_empty request.provenance))
  reject_sensitive normalize (mapping (or_empty request.details))
  inputs_hash ← hash request.inputs
  config_hash ← hash request.config
  ok (record {
    schema_version = "1";
    run_id = request.run_id;
    provider = "verdict-risk";
    provider_version = "0.1.0";
    inputs_hash = inputs_hash;
    config_hash = config_hash;
    outcome = request.outcome;
    provenance = or_empty request.provenance;
    evidence_refs = request.evidence_refs;
    details = or_empty request.details;
  })
