-- ===== src/Webhook.antt =====
-- src/trade_risk_engine/webhook.py: the emitter that posts a risk event, with retries. The HTTP client
-- is a parameter: what each attempt to post answers, and whether a response is an error. Spans holds
-- the same loop with its span and its log.
pub mod Retries
pub mod Spans
mod Tests
use verdict_risk.Py.Float.{Float, lt, le, zero_float}
use verdict_risk.Prelude.{
  leb, if◌then◌else◌, ℤ, pos_part, ltb_ℤ, pos, ℕ, zero, suc, ◌+◌, String, Bool, true, false, Option,
  none, some, List, [], ◌∷◌,
}
use verdict_risk.Py.Time.{Datetime}
use verdict_risk.Py.Except.{Result, raise_if, ◌>>=◌, ◌>>◌, value_error, err, ok}

pub record WebhookEmitter : Type 0 where
  pub endpoint_url : String
  pub max_attempts : ℕ
  pub timeout_seconds : Float
  pub retry_delay_seconds : Float

-- `__init__`
unfoldable pub init : String → ℤ → Float → Float → Result WebhookEmitter
init endpoint_url max_attempts timeout_seconds retry_delay_seconds = do
  raise_if (ltb_ℤ max_attempts (pos 1)) (value_error "max_attempts must be >= 1")
  raise_if (le timeout_seconds zero_float) (value_error "timeout_seconds must be > 0")
  raise_if (lt retry_delay_seconds zero_float) (value_error "retry_delay_seconds must be >= 0")
  ok (record {
    endpoint_url = endpoint_url;
    max_attempts = pos_part max_attempts;
    timeout_seconds = timeout_seconds;
    retry_delay_seconds = retry_delay_seconds;
  })

-- What an emission does, in order.
pub data Action : Type 0 where
  posting : ℕ → Action
  sleeping : Float → Action

abbrev pub returned : Result (Unit {0}) → Bool
returned (err e) = false
returned (ok done) = true

-- The sleep between two attempts, and what comes after it.
unfoldable pub pause : WebhookEmitter → List Action → List Action
pause emitter rest =
    if lt zero_float emitter.retry_delay_seconds
    then sleeping emitter.retry_delay_seconds ∷ rest
    else rest

-- The loop from `attempt` on, with as many turns as are left: whether the event was delivered, and what
-- was done. `answer` is what `try` meets at each attempt.
unfoldable pub emit_from : WebhookEmitter → (ℕ → Result (Unit {0})) → ℕ → ℕ → Bool × List Action
unfolding pause
emit_from emitter answer attempt zero = (false, [])
emit_from emitter answer attempt (suc left) =
    let (sent, rest) = emit_from emitter answer (attempt + 1) left in
    if returned (answer attempt)
    then (true, posting attempt ∷ [])
    else if leb emitter.max_attempts attempt
    then (false, posting attempt ∷ [])
    else (sent, posting attempt ∷ pause emitter rest)

-- The body of the `try`.
abbrev pub answer_of :
    {Response : Type 0}
    → (ℕ → Result Response)
    → (Response → Result (Unit {0}))
    → ℕ
    → Result (Unit {0})
answer_of post_once raise_for_status attempt = post_once attempt >>= raise_for_status

-- `emit`, where `post_once` is what the client answers at each attempt.
unfoldable pub emit :
    {Response : Type 0}
    → WebhookEmitter
    → (ℕ → Result Response)
    → (Response → Result (Unit {0}))
    → Bool × List Action
emit emitter post_once raise_for_status =
    emit_from emitter (answer_of post_once raise_for_status) 1 emitter.max_attempts

-- What is posted: the fields of the event, which pydantic has checked.
pub record ProposedTradeInfo : Type 0 where
  pub target_family : String
  pub proposed_cost : Float
  pub expected_value : Float

pub record RiskEvent : Type 0 where
  pub timestamp : Datetime
  pub decision_approved : Bool
  pub reason_code : String
  pub suggested_size : Float
  pub proposed_trade : ProposedTradeInfo

-- The arguments of the client's `post`.
pub record HttpRequest (Payload : Type 0) : Type 0 where
  pub endpoint_url : String
  pub json : Payload
  pub headers : List (String × String)
  pub timeout_seconds : Float

abbrev pub request_of : {Payload : Type 0} → WebhookEmitter → Payload → HttpRequest Payload
request_of emitter payload = record {
  endpoint_url = emitter.endpoint_url;
  json = payload;
  headers = ("Content-Type", "application/json") ∷ [];
  timeout_seconds = emitter.timeout_seconds;
}

-- `_post_once`: by the emitter's client, or by a new one.
unfoldable pub post_once :
    {Client Payload Response : Type 0}
    → (Client → HttpRequest Payload → Result Response)
    → Client
    → WebhookEmitter
    → Option Client
    → Payload
    → Result Response
post_once post new_client emitter none payload = post new_client (request_of emitter payload)
post_once post new_client emitter (some client) payload = post client (request_of emitter payload)

-- `emit` of an event, whose payload is made once. What the clients answer may differ from attempt to
-- attempt.
unfoldable pub emit_event :
    {Client Payload Response : Type 0}
    → (RiskEvent → Payload)
    → (ℕ → Client → HttpRequest Payload → Result Response)
    → Client
    → (Response → Result (Unit {0}))
    → WebhookEmitter
    → Option Client
    → RiskEvent
    → Bool × List Action
emit_event model_dump post new_client raise_for_status emitter client event =
    let payload = model_dump event in
    emit emitter (λ attempt. post_once (post attempt) new_client emitter client payload)
      raise_for_status
