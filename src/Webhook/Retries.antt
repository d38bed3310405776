-- ===== src/Webhook/Retries.antt =====
-- How often an event is posted, and when it counts as delivered.

use verdict_risk.Py.Except.{Result}
use verdict_risk.Prelude.{
  All, ℕ, zero, suc, ◌+◌, ◌≤◌, ◌<◌, ◌≡◌, refl, ap, ◌∙◌, subst, true, false, List, [], ◌∷◌, arith,
}
use verdict_risk.Webhook.{
  WebhookEmitter, Action, returned, pause, emit_from, answer_of, emit, posting, sleeping,
}

-- The attempts that were posted, and the number of sleeps.
abbrev pub posts : List Action → List ℕ
posts [] = []
posts (posting n ∷ rest) = n ∷ posts rest
posts (sleeping t ∷ rest) = posts rest

abbrev pub sleeps : List Action → ℕ
sleeps [] = 0
sleeps (posting n ∷ rest) = sleeps rest
sleeps (sleeping t ∷ rest) = suc (sleeps rest)

-- `count` attempts from `attempt` on.
abbrev pub attempts_from : ℕ → ℕ → List ℕ
attempts_from attempt zero = []
attempts_from attempt (suc count) = attempt ∷ attempts_from (attempt + 1) count

abbrev pub Fails : (ℕ → Result (Unit {0})) → ℕ → Type 0
Fails answer attempt = returned (answer attempt) ≡ false

pub pause-posts :
    (emitter : WebhookEmitter) (rest : List Action) → posts (pause emitter rest) ≡ posts rest
unfolding pause
pause-posts emitter rest = ground arith

emit_from_none :
    (emitter : WebhookEmitter) (answer : ℕ → Result (Unit {0})) (attempt : ℕ)
    → emit_from emitter answer attempt zero ≡ (false, [])
unfolding emit_from
emit_from_none emitter answer attempt = refl

emit_from_sent :
    (emitter : WebhookEmitter) (answer : ℕ → Result (Unit {0})) (attempt left : ℕ)
    → returned (answer attempt) ≡ true
    → emit_from emitter answer attempt (suc left) ≡ (true, posting attempt ∷ [])
unfolding emit_from
emit_from_sent emitter answer attempt left h = rw h

emit_from_last :
    (emitter : WebhookEmitter) (answer : ℕ → Result (Unit {0})) (attempt left : ℕ)
    → Fails answer attempt
    → emitter.max_attempts ≤ attempt
    → emit_from emitter answer attempt (suc left) ≡ (false, posting attempt ∷ [])
unfolding emit_from
emit_from_last emitter answer attempt left h l = rw h (ground arith)

emit_from_again :
    (emitter : WebhookEmitter) (answer : ℕ → Result (Unit {0})) (attempt left : ℕ)
    → Fails answer attempt
    → attempt < emitter.max_attempts
    → emit_from emitter answer attempt (suc left) ≡ (
      (emit_from emitter answer (attempt + 1) left).0,
      posting attempt ∷ pause emitter (emit_from emitter answer (attempt + 1) left).1,
    )
unfolding emit_from
emit_from_again emitter answer attempt left h l = rw h (ground arith)

emit_from_success :
    (emitter : WebhookEmitter) (answer : ℕ → Result (Unit {0})) (attempt left k : ℕ)
    → attempt + left ≡ emitter.max_attempts + 1
    → k < left
    → All (Fails answer) (attempts_from attempt k)
    → returned (answer (attempt + k)) ≡ true
    → ((emit_from emitter answer attempt left).0 ≡ true)
      × (posts (emit_from emitter answer attempt left).1 ≡ attempts_from attempt (suc k))
emit_from_success emitter answer attempt zero k e h fails good = absurd (omega arith)
emit_from_success emitter answer attempt (suc left) zero e h fails good =
    rw
      (emit_from_sent emitter answer attempt left
        (subst (λ n. returned (answer n) ≡ true) (omega arith) good))
      (refl, refl)
emit_from_success emitter answer attempt (suc left) (suc k) e h (fail, fails) good =
    let rest = emit_from emitter answer (attempt + 1) left in
    let (sent, posted) =
      emit_from_success emitter answer (attempt + 1) left k (omega arith) (omega arith) fails
        (subst (λ n. returned (answer n) ≡ true) (omega arith) good) in
    rw (emit_from_again emitter answer attempt left fail (omega arith))
      (sent, ap (λ ns. attempt ∷ ns) (pause-posts emitter rest.1 ∙ posted))

emit_from_failure :
    (emitter : WebhookEmitter) (answer : ℕ → Result (Unit {0})) (attempt left : ℕ)
    → attempt + left ≡ emitter.max_attempts + 1
    → All (Fails answer) (attempts_from attempt left)
    → ((emit_from emitter answer attempt left).0 ≡ false)
      × (posts (emit_from emitter answer attempt left).1 ≡ attempts_from attempt left)
emit_from_failure emitter answer attempt zero e fails =
    rw (emit_from_none emitter answer attempt) (refl, refl)
emit_from_failure emitter answer attempt (suc zero) e (fail, fails) =
    rw (emit_from_last emitter answer attempt zero fail (omega arith)) (refl, refl)
emit_from_failure emitter answer attempt (suc (suc left)) e (fail, fails) =
    let rest = emit_from emitter answer (attempt + 1) (suc left) in
    let (lost, posted) =
      emit_from_failure emitter answer (attempt + 1) (suc left) (omega arith) fails in
    rw (emit_from_again emitter answer attempt (suc left) fail (omega arith))
      (lost, ap (λ ns. attempt ∷ ns) (pause-posts emitter rest.1 ∙ posted))

-- If the first k attempts fail, k is less than max_attempts, and the next attempt is answered
-- without an error, the event counts as delivered after exactly k + 1 posts, in order.
pub emit_success :
    {Response : Type 0} (emitter : WebhookEmitter) (post_once : ℕ → Result Response)
    (raise_for_status : Response → Result (Unit {0})) (k : ℕ)
    → k < emitter.max_attempts
    → let answer = (answer_of post_once raise_for_status) in
      All (Fails answer) (attempts_from 1 k)
      → returned (answer (1 + k)) ≡ true
      → ((emit emitter post_once raise_for_status).0 ≡ true)
        × (posts (emit emitter post_once raise_for_status).1 ≡ attempts_from 1 (suc k))
unfolding emit
emit_success emitter post_once raise_for_status k h fails good =
    emit_from_success emitter (answer_of post_once raise_for_status) 1 emitter.max_attempts k
      (omega arith) h fails good

-- If every attempt up to max_attempts fails, the emitter posts exactly max_attempts times, in
-- order, and answers that the event is not delivered.
pub emit_failure :
    {Response : Type 0} (emitter : WebhookEmitter) (post_once : ℕ → Result Response)
    (raise_for_status : Response → Result (Unit {0}))
    → let answer = (answer_of post_once raise_for_status) in
      All (Fails answer) (attempts_from 1 emitter.max_attempts)
      → ((emit emitter post_once raise_for_status).0 ≡ false)
        × (posts (emit emitter post_once raise_for_status).1 ≡ attempts_from 1 emitter.max_attempts)
unfolding emit
emit_failure emitter post_once raise_for_status fails =
    emit_from_failure emitter (answer_of post_once raise_for_status) 1 emitter.max_attempts
      (omega arith) fails
