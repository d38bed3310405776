-- ===== src/Webhook/Spans/Actions.antt =====
-- The answer, the posts and the sleeps of an emission with its span.

use verdict_risk.Prelude.{
  leb, if◌then◌else◌, ℕ, zero, suc, ◌+◌, ◌≡◌, refl, ap, ◌∙◌, Bool, true, false, List, [], ◌∷◌, ◌++◌,
  arith,
}
use verdict_risk.Py.Except.{Result, ◌>>=◌, err, ok}
use verdict_risk.Webhook.{
  WebhookEmitter, Action, returned, pause, emit_from, answer_of, post_once, posting,
}
use verdict_risk.Webhook.Spans.{
  Effect, done_all, turn, emit_spans_from, status_of, doing, entering, setting, recording_exception,
  logging_error, leaving,
}

-- The posts and sleeps among the effects.
abbrev pub actions_of : List Effect → List Action
actions_of [] = []
actions_of (doing action ∷ rest) = action ∷ actions_of rest
actions_of (effect ∷ rest) = actions_of rest

pub actions_of-append :
    (xs ys : List Effect) → actions_of (xs ++ ys) ≡ actions_of xs ++ actions_of ys
actions_of-append [] ys = refl
actions_of-append (doing action ∷ xs) ys = ap (λ l. action ∷ l) (actions_of-append xs ys)
actions_of-append (entering name ∷ xs) ys = actions_of-append xs ys
actions_of-append (setting key value ∷ xs) ys = actions_of-append xs ys
actions_of-append (recording_exception e ∷ xs) ys = actions_of-append xs ys
actions_of-append (logging_error n e ∷ xs) ys = actions_of-append xs ys
actions_of-append (leaving ∷ xs) ys = actions_of-append xs ys

abbrev pub succeeded : Result ℕ → Bool
succeeded (err e) = false
succeeded (ok status) = true

pub actions_of-done_all : (xs : List Action) → actions_of (done_all xs) ≡ xs
actions_of-done_all [] = refl
actions_of-done_all (x ∷ xs) = ap (λ l. x ∷ l) (actions_of-done_all xs)

pause-append :
    (emitter : WebhookEmitter) (rest : List Action) → pause emitter [] ++ rest ≡ pause emitter rest
unfolding pause
pause-append emitter rest = ground arith

-- The sleep, and then what is left of the loop.
pub actions_of-pause :
    (emitter : WebhookEmitter) (later : List Effect) (rest : List Action)
    → actions_of later ≡ rest
    → actions_of (done_all (pause emitter []) ++ later) ≡ pause emitter rest
actions_of-pause emitter later rest h =
    actions_of-append (done_all (pause emitter [])) later
    ∙ ap (λ l. l ++ actions_of later) (actions_of-done_all (pause emitter []))
    ∙ ap (λ l. pause emitter [] ++ l) h
    ∙ pause-append emitter rest

-- The same answer, and the same posts and sleeps.
abbrev pub Does : Bool × List Effect → Bool × List Action → Type 0
Does e a = (e.0 ≡ a.0) × (actions_of e.1 ≡ a.1)

turn-Does :
    (emitter : WebhookEmitter) (attempt : ℕ) (r : Result ℕ) (later : Bool × List Effect)
    (again : Bool × List Action)
    → Does later again
    → Does (turn emitter attempt r later) (
        if succeeded r
        then (true, posting attempt ∷ [])
        else if leb emitter.max_attempts attempt
        then (false, posting attempt ∷ [])
        else (again.0, posting attempt ∷ pause emitter again.1))
unfolding turn
turn-Does emitter attempt (ok status) later again h = (refl, refl)
turn-Does emitter attempt (err e) later again h =
    ground (arith, actions_of-pause emitter later.1 again.1 h.1)

pub emit_spans_from-Does :
    (emitter : WebhookEmitter) (tried : ℕ → Result ℕ) (answer : ℕ → Result (Unit {0}))
    (attempt left : ℕ)
    → ((n : ℕ) → succeeded (tried n) ≡ returned (answer n))
    → Does (emit_spans_from emitter tried attempt left) (emit_from emitter answer attempt left)
unfolding emit_spans_from emit_from
emit_spans_from-Does emitter tried answer attempt zero same = (refl, refl)
emit_spans_from-Does emitter tried answer attempt (suc left) same = rw (← same attempt) (
    turn-Does emitter attempt (tried attempt) (emit_spans_from emitter tried (attempt + 1) left)
      (emit_from emitter answer (attempt + 1) left)
      (emit_spans_from-Does emitter tried answer (attempt + 1) left same))

-- The two ways to read a response raise alike.
pub status_of-answer_of :
    {Response : Type 0} (post_once : ℕ → Result Response)
    (raise_for_status : Response → Result (Unit {0})) (status_code : Response → ℕ) (n : ℕ)
    → succeeded (status_of post_once raise_for_status status_code n)
      ≡ returned (answer_of post_once raise_for_status n)
status_of-answer_of {Response} post_once raise_for_status status_code n = read (post_once n)
  where
    checked : (r : Result (Unit {0})) (s : ℕ) → succeeded (r >>= λ done. ok s) ≡ returned r
    checked (err e) s = refl
    checked (ok done) s = refl

    read :
        (p : Result Response)
        → succeeded (p >>= λ r. raise_for_status r >>= λ done. ok (status_code r))
          ≡ returned (p >>= raise_for_status)
    read (err e) = refl
    read (ok r) = checked (raise_for_status r) (status_code r)
