-- ===== src/Webhook/Spans/Attributes.antt =====
-- What the span of an emission says in the end.

use mathlib.Core.List.{append-nil}
use verdict_risk.Webhook.Retries.{posts, pause-posts}
use verdict_risk.Prelude.{
  leb, if◌then◌else◌, Bool-cases, length, ℕ, zero, suc, ◌+◌, ◌-◌, ◌≤◌, ◌<◌, String, ◌≡◌, refl, ap,
  ◌∙◌, inl, inr, Bool, Option, none, some, List, [], ◌∷◌, ◌++◌, arith,
}
use verdict_risk.Py.Except.{Exception, Result, err, ok}
use verdict_risk.Webhook.{WebhookEmitter, Action, pause, answer_of, emit, RiskEvent, post_once}
use verdict_risk.Webhook.Spans.Actions.{
  actions_of, actions_of-append, actions_of-pause, emit_spans_from-Does, status_of-answer_of,
}
use verdict_risk.Webhook.Spans.{
  SpanValue, Effect, done_all, turn, emit_spans_from, status_of, emit_spans, bool_value, int_value,
  doing, entering, setting, recording_exception, logging_error, leaving,
}
use text.Mathlib.Text.{◌==◌ as str_eq}

-- The exceptions that are recorded.
abbrev pub exceptions_of : List Effect → List Exception
exceptions_of [] = []
exceptions_of (recording_exception e ∷ rest) = e ∷ exceptions_of rest
exceptions_of (effect ∷ rest) = exceptions_of rest

-- The value that an attribute has in the end, if it had one before.
abbrev pub value_of : String → Option SpanValue → List Effect → Option SpanValue
value_of name before [] = before
value_of name before (setting key value ∷ rest) =
    value_of name (if str_eq key name then some value else before) rest
value_of name before (effect ∷ rest) = value_of name before rest

value_of-done_all :
    (name : String) (before : Option SpanValue) (xs : List Action) (ys : List Effect)
    → value_of name before (done_all xs ++ ys) ≡ value_of name before ys
value_of-done_all name before [] ys = refl
value_of-done_all name before (x ∷ xs) ys = value_of-done_all name before xs ys

exceptions_of-done_all :
    (xs : List Action) (ys : List Effect) → exceptions_of (done_all xs ++ ys) ≡ exceptions_of ys
exceptions_of-done_all [] ys = refl
exceptions_of-done_all (x ∷ xs) ys = exceptions_of-done_all xs ys

posts_of-pause :
    (emitter : WebhookEmitter) (later : List Effect)
    → posts (actions_of (done_all (pause emitter []) ++ later)) ≡ posts (actions_of later)
posts_of-pause emitter later =
    ap posts (actions_of-pause emitter later (actions_of later) refl)
    ∙ pause-posts emitter (actions_of later)

-- From an attempt on, the attributes tell the answer and the last attempt, and each attempt but a
-- successful one has its exception.
abbrev Tells : ℕ → Bool × List Effect → Type 0
Tells attempt e =
    ((before : Option SpanValue) → value_of "webhook.success" before e.1 ≡ some (bool_value e.0))
    × ((before : Option SpanValue)
        → value_of "webhook.attempts" before e.1
          ≡ some (int_value (attempt + length (posts (actions_of e.1)) - 1)))
    × (length (exceptions_of e.1) + (if e.0 then 1 else 0) ≡ length (posts (actions_of e.1)))

turn-Tells :
    (emitter : WebhookEmitter) (attempt : ℕ) (r : Result ℕ) (later : Bool × List Effect)
    → (attempt < emitter.max_attempts → Tells (attempt + 1) later)
    → Tells attempt (turn emitter attempt r later)
unfolding turn
turn-Tells emitter attempt (ok status) later h =
    (λ before. refl, λ before. ap (λ n. some (int_value n)) (omega arith), refl)
turn-Tells emitter attempt (err e) later h = elim (Bool-cases (leb emitter.max_attempts attempt)) [
  | inl last ↦ rw last (λ before. refl, λ before. ap (λ n. some (int_value n)) (omega arith), refl)
  | inr more ↦
      let (sent, count, failed) = h (ground arith) in
      rw (more, posts_of-pause emitter later.1, exceptions_of-done_all (pause emitter []) later.1)
        (
          λ before. value_of-done_all _ _ (pause emitter []) later.1 ∙ sent _,
          λ before.
              value_of-done_all _ _ (pause emitter []) later.1
              ∙ count _
              ∙ ap (λ n. some (int_value n)) (omega arith),
          omega (arith, failed),
        )
]

value_of-leaving :
    (name : String) (before : Option SpanValue) (xs : List Effect)
    → value_of name before (xs ++ (leaving ∷ [])) ≡ value_of name before xs
value_of-leaving name before [] = refl
value_of-leaving name before (doing action ∷ xs) = value_of-leaving name before xs
value_of-leaving name before (entering key ∷ xs) = value_of-leaving name before xs
value_of-leaving name before (setting key value ∷ xs) =
    value_of-leaving name (if str_eq key name then some value else before) xs
value_of-leaving name before (recording_exception e ∷ xs) = value_of-leaving name before xs
value_of-leaving name before (logging_error n e ∷ xs) = value_of-leaving name before xs
value_of-leaving name before (leaving ∷ xs) = value_of-leaving name before xs

exceptions_of-leaving : (xs : List Effect) → exceptions_of (xs ++ (leaving ∷ [])) ≡ exceptions_of xs
exceptions_of-leaving [] = refl
exceptions_of-leaving (doing action ∷ xs) = exceptions_of-leaving xs
exceptions_of-leaving (entering key ∷ xs) = exceptions_of-leaving xs
exceptions_of-leaving (setting key value ∷ xs) = exceptions_of-leaving xs
exceptions_of-leaving (recording_exception e ∷ xs) = ap (λ l. e ∷ l) (exceptions_of-leaving xs)
exceptions_of-leaving (logging_error n e ∷ xs) = exceptions_of-leaving xs
exceptions_of-leaving (leaving ∷ xs) = exceptions_of-leaving xs

emit_spans_from-Tells :
    (emitter : WebhookEmitter) (tried : ℕ → Result ℕ) (attempt left : ℕ)
    → attempt + left ≡ emitter.max_attempts + 1
    → 1 ≤ left
    → Tells attempt (emit_spans_from emitter tried attempt left)
unfolding emit_spans_from
emit_spans_from-Tells emitter tried attempt zero e h = absurd (omega arith)
emit_spans_from-Tells emitter tried attempt (suc left) e h =
    turn-Tells emitter attempt (tried attempt) (emit_spans_from emitter tried (attempt + 1) left)
      (λ more. emit_spans_from-Tells emitter tried (attempt + 1) left (omega arith) (omega arith))

-- With at least one attempt allowed, the span changes neither the answer, nor the posts, nor the
-- sleeps of an emission; in the end it holds the answer and the number of posts, and an exception
-- was recorded for each post but one that succeeded.
pub emit_spans-tells :
    {Response : Type 0} (emitter : WebhookEmitter) (event : RiskEvent)
    (post_once : ℕ → Result Response) (raise_for_status : Response → Result (Unit {0}))
    (status_code : Response → ℕ)
    → 1 ≤ emitter.max_attempts
    → let done = emit emitter post_once raise_for_status in
      let told = emit_spans emitter event post_once raise_for_status status_code in
      (told.0 ≡ done.0)
      × (actions_of told.1 ≡ done.1)
      × (value_of "webhook.success" none told.1 ≡ some (bool_value done.0))
      × (value_of "webhook.attempts" none told.1 ≡ some (int_value (length (posts done.1))))
      × (length (exceptions_of told.1) + (if done.0 then 1 else 0) ≡ length (posts done.1))
unfolding emit_spans emit
emit_spans-tells emitter event post_once raise_for_status status_code h =
    let tried = status_of post_once raise_for_status status_code in
    let loop = emit_spans_from emitter tried 1 emitter.max_attempts in
    let (same, acts) =
      emit_spans_from-Does emitter tried (answer_of post_once raise_for_status) 1
        emitter.max_attempts (status_of-answer_of post_once raise_for_status status_code) in
    let (sent, count, failed) =
      emit_spans_from-Tells emitter tried 1 emitter.max_attempts (omega arith) h in
    (
      same,
      actions_of-append loop.1 (leaving ∷ []) ∙ append-nil (actions_of loop.1) ∙ acts,
      value_of-leaving _ _ loop.1 ∙ sent _ ∙ ap (λ b. some (bool_value b)) same,
      value_of-leaving _ _ loop.1
          ∙ count _
          ∙ ap (λ n. some (int_value n)) (omega arith)
          ∙ ap (λ (l : List Action). some (int_value (length (posts l)))) acts,
      rw (exceptions_of-leaving loop.1, ← same, ← acts) failed,
    )
