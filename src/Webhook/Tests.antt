-- ===== src/Webhook/Tests.antt =====
-- The theorems about retries at concrete inputs.

use verdict_risk.Py.Float.{zero_float, one_float}
use verdict_risk.Py.Except.{Result, runtime_error, err, ok}
use verdict_risk.Prelude.{
  ◌==◌, if◌then◌else◌, length, ℕ, ◌+◌, ◌≡◌, refl, true, false, none, some, arith,
}
use verdict_risk.Webhook.{WebhookEmitter, emit, RiskEvent}
use verdict_risk.Webhook.Spans.{emit_spans, bool_value, int_value}
use verdict_risk.Webhook.Spans.Actions.{actions_of}
use verdict_risk.Webhook.Spans.Attributes.{exceptions_of, value_of, emit_spans-tells}
use verdict_risk.Tests.Data.{clock}
use verdict_risk.Webhook.Retries.{posts, attempts_from, emit_success, emit_failure}

abbrev emitter : WebhookEmitter
emitter = record {
  endpoint_url = "https://desk.example";
  max_attempts = 3;
  timeout_seconds = one_float;
  retry_delay_seconds = zero_float;
}

-- A client that answers from the second attempt on, with the attempt as the response.
abbrev late_client : ℕ → Result ℕ
late_client attempt = if attempt == 1 then err (runtime_error "refused") else ok attempt

abbrev lost_client : ℕ → Result ℕ
lost_client attempt = err (runtime_error "refused")

abbrev accept : ℕ → Result (Unit {0})
accept response = ok tt

emit_success_example :
    ((emit emitter late_client accept).0 ≡ true)
    × (posts (emit emitter late_client accept).1 ≡ attempts_from 1 2)
emit_success_example = emit_success emitter late_client accept 1 (omega arith) (refl, tt) refl

emit_failure_example :
    ((emit emitter lost_client accept).0 ≡ false)
    × (posts (emit emitter lost_client accept).1 ≡ attempts_from 1 3)
emit_failure_example = emit_failure emitter lost_client accept (refl, (refl, (refl, tt)))

abbrev event : RiskEvent
event = record {
  timestamp = clock 720;
  decision_approved = false;
  reason_code = "HALT";
  suggested_size = one_float;
  proposed_trade = record {
    target_family = "weather";
    proposed_cost = one_float;
    expected_value = zero_float;
  };
}

abbrev always_200 : ℕ → ℕ
always_200 response = 200

emit_spans-tells_example :
    let done = emit emitter late_client accept in
    let told = emit_spans emitter event late_client accept always_200 in
    (told.0 ≡ done.0)
    × (actions_of told.1 ≡ done.1)
    × (value_of "webhook.success" none told.1 ≡ some (bool_value done.0))
    × (value_of "webhook.attempts" none told.1 ≡ some (int_value (length (posts done.1))))
    × (length (exceptions_of told.1) + (if done.0 then 1 else 0) ≡ length (posts done.1))
emit_spans-tells_example =
    emit_spans-tells emitter event late_client accept always_200 (omega arith)
