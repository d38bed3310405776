-- ===== src/State/Json.antt =====
-- src/trade_risk_engine/state.py: what is written as JSON and read back. The codec of msgspec is a
-- parameter, for each type that it is asked for, and so are the texts that Python makes for exceptions,
-- values and sorted sets of keys.
pub mod Restore
pub mod Restart
mod Tests
use verdict_risk.Prelude.{
  if◌then◌else◌, any, ltb_ℤ, String, Bool, true, false, not, ◌||◌, Option, none, some, List, [],
  ◌∷◌,
}
use verdict_risk.Py.Except.{
  Exception, Result, raise_if, ◌>>=◌, ◌>>◌, require, value_error, key_error, err, ok,
}
use verdict_risk.Py.Format.{join, str_int}
use verdict_risk.State.{risk_state_schema_version, RiskContext, RiskDecision, RiskState}
use verdict_risk.Receipts.{
  Value, Fields, string, real, whole, truth, null, mapping, sequence, scalar, no_fields, field,
  other_field, key_text,
}
use text.Mathlib.Text.{◌==◌ as str_eq}

-- `msgspec.json.encode(x).decode("utf-8")`, and `msgspec.json.decode(payload, type=...)`
pub record Codec (A : Type 0) : Type 0 where
  pub encode : A → String
  pub decode : String → Result A

-- The codec for any JSON value, for each of the three types, and the texts.
pub record Library : Type 0 where
  pub raw : Codec Value
  pub context : Codec RiskContext
  pub decision : Codec RiskDecision
  pub state : Codec RiskState
  pub show_exception : Exception → String
  pub show_value : Value → String
  pub show_keys : List String → String

-- `except Exception as exc: raise ValueError(...)`
abbrev pub reword : {A : Type 0} → Library → String → Result A → Result A
reword library prefix (err e) = err (value_error (join (prefix ∷ library.show_exception e ∷ [])))
reword library prefix (ok a) = ok a

-- `RiskContext.to_json`
unfoldable pub context_to_json : Library → RiskContext → String
context_to_json library ctx = library.context.encode ctx

-- `RiskContext.from_json`
unfoldable pub context_from_json : Library → String → Result RiskContext
context_from_json library payload =
    reword library "Invalid RiskContext payload: " (library.context.decode payload)

-- `RiskDecision.to_json`
unfoldable pub decision_to_json : Library → RiskDecision → String
decision_to_json library decision = library.decision.encode decision

-- `RiskDecision.from_json`
unfoldable pub decision_from_json : Library → String → Result RiskDecision
decision_from_json library payload =
    reword library "Invalid RiskDecision payload: " (library.decision.decode payload)

abbrev pub as_object : Value → Option Fields
as_object (mapping found) = some found
as_object (sequence items) = none
as_object (scalar s) = none

-- `set(raw)`. An object of JSON has only strings as keys.
abbrev pub keys : Fields → List String
keys no_fields = []
keys (field key value rest) = key ∷ keys rest
keys (other_field key value rest) = key_text key ∷ keys rest

-- `raw[key]`
abbrev pub get : String → Fields → Option Value
get name no_fields = none
get name (field key value rest) =
    let later = get name rest in if str_eq key name then some value else later
get name (other_field key value rest) = get name rest

-- `xs - ys`
abbrev pub minus_keys : List String → List String → List String
minus_keys [] ys = []
minus_keys (x ∷ xs) ys = let rest = minus_keys xs ys in if any (str_eq x) ys then rest else x ∷ rest

abbrev pub allowed_keys : List String
allowed_keys =
    "schema_version" ∷ "context" ∷ "kill_switch" ∷ "timed_breaker" ∷ "consecutive_loss_gate" ∷ []

abbrev pub is_nil : List String → Bool
is_nil [] = true
is_nil (x ∷ xs) = false

-- `type(v) is int and v == RISK_STATE_SCHEMA_VERSION`: a bool is no int here
abbrev pub is_version : Value → Bool
is_version (scalar (whole i)) =
    not (ltb_ℤ i risk_state_schema_version || ltb_ℤ risk_state_schema_version i)
is_version (scalar (string s)) = false
is_version (scalar (real x)) = false
is_version (scalar (truth b)) = false
is_version (scalar null) = false
is_version (mapping _) = false
is_version (sequence items) = false

-- `RiskState.to_json`
unfoldable pub state_to_json : Library → RiskState → String
state_to_json library s = library.state.encode s

-- The tests of `RiskState.from_json` on the object.
unfoldable pub check_object : Library → Fields → Result (Unit {0})
check_object library fields =
    let unexpected = minus_keys (keys fields) allowed_keys in
    let missing = minus_keys allowed_keys (keys fields) in
    do
      raise_if (not (is_nil unexpected))
          (value_error (join ("Unexpected RiskState keys: " ∷ library.show_keys unexpected ∷ [])))
      raise_if (not (is_nil missing))
          (value_error (join ("RiskState payload missing keys: " ∷ library.show_keys missing ∷ [])))
      version ← require (get "schema_version" fields) (key_error "schema_version")
      raise_if (not (is_version version)) (
          value_error (
            join (
              "Unsupported risk state schema_version="
              ∷ library.show_value version
              ∷ "; expected "
              ∷ str_int risk_state_schema_version
              ∷ [])))
      ok tt

-- `RiskState.from_json`
unfoldable pub state_from_json : Library → String → Result RiskState
state_from_json library payload = do
  raw ← reword library "Invalid RiskState payload: " (library.raw.decode payload)
  fields ← require (as_object raw) (value_error "RiskState payload must be a JSON object")
  check_object library fields
  reword library "Invalid RiskState payload: "
      (library.state.decode (library.raw.encode (mapping fields)))
