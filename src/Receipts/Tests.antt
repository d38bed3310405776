-- ===== src/Receipts/Tests.antt =====
-- The theorems about receipts at concrete inputs.

use verdict_risk.Prelude.{if◌then◌else◌, String, ◌≡◌, ◌↔◌, Bool, false, none, some, [], refl}
use verdict_risk.Py.Except.{Result, ok, err}
use verdict_risk.Receipts.{
  Value, ReceiptRequest, build_risk_receipt, string, scalar, no_fields, field, other_field,
  object_key, key_text, is_sensitive, refuse_field, reject_sensitive, reject_fields,
}
use verdict_risk.Receipts.Sensitive.{
  keys_of_fields, AllHarmless, receipt_of, build_risk_receipt_iff,
}
use text.Mathlib.Text.{◌==◌ as str_eq}

abbrev normalize : String → String
normalize key = if str_eq key "Api-Key" then "api_key" else key

abbrev is_blank : String → Bool
is_blank s = str_eq s ""

abbrev hash : Value → Result String
hash v = ok "sha256:0"

abbrev request : ReceiptRequest
request = record {
  run_id = "run-1";
  inputs = scalar (string "8");
  config = scalar (string "9");
  outcome = "approved";
  evidence_refs = [];
  provenance = none;
  details = some (field "reason_code" (scalar (string "OK")) no_fields);
}

build_risk_receipt_iff_example :
    (build_risk_receipt is_blank normalize hash request
      ≡ ok (receipt_of request "sha256:0" "sha256:0"))
    ↔ ((is_blank "run-1" ≡ false)
        × (is_blank "approved" ≡ false)
        × AllHarmless normalize (keys_of_fields no_fields)
        × AllHarmless normalize
            (keys_of_fields (field "reason_code" (scalar (string "OK")) no_fields))
        × (hash request.inputs ≡ ok "sha256:0")
        × (hash request.config ≡ ok "sha256:0")
        × (receipt_of request "sha256:0" "sha256:0" ≡ receipt_of request "sha256:0" "sha256:0"))
build_risk_receipt_iff_example =
    build_risk_receipt_iff is_blank normalize hash request
      (receipt_of request "sha256:0" "sha256:0")

-- A key that is no string is refused by its text.
abbrev nested : ReceiptRequest
nested = record request {
  details = some (other_field (object_key "Api-Key") (scalar (string "x")) no_fields);
}

nested_refused : build_risk_receipt is_blank normalize hash nested ≡ err (refuse_field "Api-Key")
unfolding build_risk_receipt reject_sensitive reject_fields is_sensitive key_text
nested_refused = refl
