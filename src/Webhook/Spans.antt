-- ===== src/Webhook/Spans.antt =====
-- The span, the log and the recorded exceptions of `WebhookEmitter.emit`, in order with its posts.
pub mod Actions
pub mod Attributes
use verdict_risk.Prelude.{
  leb, if◌then◌else◌, ℕ, zero, suc, ◌+◌, String, Bool, true, false, List, [], ◌∷◌, ◌++◌,
}
use verdict_risk.Py.Except.{Exception, Result, ◌>>=◌, err, ok}
use verdict_risk.Webhook.{WebhookEmitter, Action, pause, RiskEvent, post_once, posting}

-- The values of attributes.
pub data SpanValue : Type 0 where
  str_value : String → SpanValue
  bool_value : Bool → SpanValue
  int_value : ℕ → SpanValue

-- What an emission does: it posts and sleeps, and tells the span and the log.
pub data Effect : Type 0 where
  doing : Action → Effect
  entering : String → Effect
  setting : String → SpanValue → Effect
  recording_exception : Exception → Effect
  logging_error : ℕ → Exception → Effect
  leaving : Effect

-- The sleep between two attempts.
abbrev pub done_all : List Action → List Effect
done_all [] = []
done_all (action ∷ rest) = doing action ∷ done_all rest

-- One turn of the loop, by the status of the response or the exception, and the turns after it.
unfoldable pub turn : WebhookEmitter → ℕ → Result ℕ → Bool × List Effect → Bool × List Effect
turn emitter attempt (ok status_code) later = (
  true,
  doing (posting attempt)
      ∷ setting "webhook.status_code" (int_value status_code)
      ∷ setting "webhook.attempts" (int_value attempt)
      ∷ setting "webhook.success" (bool_value true)
      ∷ [],
)
turn emitter attempt (err e) later =
    let told = λ (rest : List Effect).
      doing (posting attempt)
      ∷ logging_error attempt e
      ∷ recording_exception e
      ∷ setting "webhook.attempts" (int_value attempt)
      ∷ rest in
    if leb emitter.max_attempts attempt
    then (false, told (setting "webhook.success" (bool_value false) ∷ []))
    else (later.0, told (done_all (pause emitter []) ++ later.1))

-- The loop from `attempt` on, with as many turns as are left.
unfoldable pub emit_spans_from : WebhookEmitter → (ℕ → Result ℕ) → ℕ → ℕ → Bool × List Effect
unfolding turn
emit_spans_from emitter tried attempt zero = (false, [])
emit_spans_from emitter tried attempt (suc left) =
    turn emitter attempt (tried attempt) (emit_spans_from emitter tried (attempt + 1) left)

-- The body of the `try`, up to the status.
abbrev pub status_of :
    {Response : Type 0}
    → (ℕ → Result Response)
    → (Response → Result (Unit {0}))
    → (Response → ℕ)
    → ℕ
    → Result ℕ
status_of post_once raise_for_status status_code attempt = post_once attempt >>= λ response.
    raise_for_status response >>= λ done. ok (status_code response)

-- `emit`, with its span.
unfoldable pub emit_spans :
    {Response : Type 0}
    → WebhookEmitter
    → RiskEvent
    → (ℕ → Result Response)
    → (Response → Result (Unit {0}))
    → (Response → ℕ)
    → Bool × List Effect
emit_spans emitter event post_once raise_for_status status_code =
    let (sent, effects) =
      emit_spans_from emitter (status_of post_once raise_for_status status_code) 1
        emitter.max_attempts in
    (
      sent,
      entering "emit_webhook"
          ∷ setting "webhook.url" (str_value emitter.endpoint_url)
          ∷ setting "webhook.event.approved" (bool_value event.decision_approved)
          ∷ setting "webhook.event.reason_code" (str_value event.reason_code)
          ∷ (effects ++ (leaving ∷ [])),
    )
