-- ===== src/Gates/LossWindow/Sort.antt =====
-- The order in which the loop meets the outcomes: by time, and nothing lost.

use verdict_risk.State.{TradeOutcome}
use verdict_risk.Py.Time.{instant}
use verdict_risk.Prelude.{
  Bool-cases, All, All-append, ◌≤ℤ◌, inl, inr, List, [], ◌∷◌, reverse, arith,
}
use verdict_risk.Gates.LossWindow.{earlier, insert_outcome, sort_outcomes}
use mathlib.Core.List.{Perm, reverse-append}
use mathlib.Core.List.Perm

pub All-reverse {ℓ} : {A : Type 0} (P : A → Type ℓ) (xs : List A) → All P xs → All P (reverse xs)
All-reverse P [] h = h
All-reverse P (x ∷ xs) (h, hs) =
    rw (reverse-append (x ∷ []) xs)
      ((All-append P (reverse xs) (x ∷ [])).1 (All-reverse P xs hs, (h, tt)))

All-insert_outcome :
    (P : TradeOutcome → Type 0) (o : TradeOutcome) (os : List TradeOutcome)
    → P o
    → All P os
    → All P (insert_outcome o os)
unfolding insert_outcome
All-insert_outcome P o [] h k = (h, tt)
All-insert_outcome P o (p ∷ os) h k = ground (arith, All-insert_outcome P o os h k.1)

-- What holds of every outcome holds along the loop.
pub All-sort_outcomes :
    (P : TradeOutcome → Type 0) (os : List TradeOutcome) → All P os → All P (sort_outcomes os)
unfolding sort_outcomes
All-sort_outcomes P [] h = h
All-sort_outcomes P (o ∷ os) (h, hs) =
    All-insert_outcome P o (sort_outcomes os) h (All-sort_outcomes P os hs)

insert_outcome-perm :
    (o : TradeOutcome) (os : List TradeOutcome) → Perm (insert_outcome o os) (o ∷ os)
unfolding insert_outcome
insert_outcome-perm o [] = Perm.refl (o ∷ [])
insert_outcome-perm o (p ∷ os) = elim (Bool-cases (earlier p.timestamp o.timestamp)) [
  | inl before ↦ rw before (Perm.trans (Perm.cons p (insert_outcome-perm o os)) (Perm.swap o p os))
  | inr after ↦ rw after (Perm.refl (o ∷ p ∷ os))
]

sort_outcomes-perm : (os : List TradeOutcome) → Perm (sort_outcomes os) os
unfolding sort_outcomes
sort_outcomes-perm [] = Perm.refl []
sort_outcomes-perm (o ∷ os) =
    Perm.trans (insert_outcome-perm o (sort_outcomes os)) (Perm.cons o (sort_outcomes-perm os))

-- No outcome is later than the one behind it.
abbrev pub IsSorted : List TradeOutcome → Type 0
IsSorted [] = Unit
IsSorted (o ∷ os) = All (λ p. instant o.timestamp ≤ℤ instant p.timestamp) os × IsSorted os

All-earlier :
    (o p : TradeOutcome) (os : List TradeOutcome)
    → instant o.timestamp ≤ℤ instant p.timestamp
    → All (λ q. instant p.timestamp ≤ℤ instant q.timestamp) os
    → All (λ q. instant o.timestamp ≤ℤ instant q.timestamp) os
All-earlier o p [] h k = tt
All-earlier o p (q ∷ os) h (k, ks) = (omega arith, All-earlier o p os h ks)

insert_outcome-IsSorted :
    (o : TradeOutcome) (os : List TradeOutcome) → IsSorted os → IsSorted (insert_outcome o os)
unfolding insert_outcome
insert_outcome-IsSorted o [] h = (tt, tt)
insert_outcome-IsSorted o (p ∷ os) (h, hs) = ground (
  arith,
  All-earlier o p os,
  All-insert_outcome (λ q. instant p.timestamp ≤ℤ instant q.timestamp) o os,
  insert_outcome-IsSorted o os hs,
)

-- The list of the loop, oldest first, holds the same outcomes in the order of time.
pub sort_outcomes_lem :
    (os : List TradeOutcome) → IsSorted (sort_outcomes os) × Perm (sort_outcomes os) os
unfolding sort_outcomes
sort_outcomes_lem [] = (tt, Perm.refl [])
sort_outcomes_lem (o ∷ os) = (
  insert_outcome-IsSorted o (sort_outcomes os) (sort_outcomes_lem os).0,
  sort_outcomes-perm (o ∷ os),
)
