-- ===== src/Benchmark/Samples.antt =====
-- The samples in order, and the places in them.
use verdict_risk.Prelude.{
  Bool-cases, length, All, ℤ, ◌≤ℤ◌, ltb_ℤ, ℕ, zero, suc, ◌≤◌, ◌<◌, ◌≡◌, refl, ap, ◌∙◌, subst, inl,
  inr, List, [], ◌∷◌, arith,
}
use verdict_risk.Py.Except.{ok}
use verdict_risk.Py.Except.Ensures.{ok_injective}
use verdict_risk.Benchmark.{insert_sample, sort_samples, item_at, last_item}
use mathlib.Core.List.{Perm}
use mathlib.Core.List.Perm

-- No sample is greater than one behind it.
abbrev pub IsSorted : List ℤ → Type 0
IsSorted [] = Unit
IsSorted (x ∷ xs) = All (λ y. x ≤ℤ y) xs × IsSorted xs

insert_sample-perm : (x : ℤ) (xs : List ℤ) → Perm (insert_sample x xs) (x ∷ xs)
unfolding insert_sample
insert_sample-perm x [] = Perm.refl (x ∷ [])
insert_sample-perm x (y ∷ xs) = elim (Bool-cases (ltb_ℤ y x)) [
  | inl less ↦ rw less (Perm.trans (Perm.cons y (insert_sample-perm x xs)) (Perm.swap x y xs))
  | inr more ↦ rw more (Perm.refl (x ∷ y ∷ xs))
]

pub sort_samples-perm : (xs : List ℤ) → Perm (sort_samples xs) xs
unfolding sort_samples
sort_samples-perm [] = Perm.refl []
sort_samples-perm (x ∷ xs) =
    Perm.trans (insert_sample-perm x (sort_samples xs)) (Perm.cons x (sort_samples-perm xs))

All-insert_sample :
    (P : ℤ → Type 0) (x : ℤ) (xs : List ℤ) → P x → All P xs → All P (insert_sample x xs)
unfolding insert_sample
All-insert_sample P x [] h k = (h, tt)
All-insert_sample P x (y ∷ xs) h k = ground (arith, All-insert_sample P x xs h k.1)

All-below : (x y : ℤ) (xs : List ℤ) → x ≤ℤ y → All (λ z. y ≤ℤ z) xs → All (λ z. x ≤ℤ z) xs
All-below x y [] h k = tt
All-below x y (z ∷ xs) h (k, ks) = (omega arith, All-below x y xs h ks)

insert_sample-IsSorted : (x : ℤ) (xs : List ℤ) → IsSorted xs → IsSorted (insert_sample x xs)
unfolding insert_sample
insert_sample-IsSorted x [] h = (tt, tt)
insert_sample-IsSorted x (y ∷ xs) (h, hs) =
    ground (
      arith,
      All-below x y xs,
      All-insert_sample (λ z. y ≤ℤ z) x xs,
      insert_sample-IsSorted x xs hs,
    )

pub sort_samples-IsSorted : (xs : List ℤ) → IsSorted (sort_samples xs)
unfolding sort_samples
sort_samples-IsSorted [] = tt
sort_samples-IsSorted (x ∷ xs) =
    insert_sample-IsSorted x (sort_samples xs) (sort_samples-IsSorted xs)

length-insert_sample : (x : ℤ) (xs : List ℤ) → length (insert_sample x xs) ≡ suc (length xs)
unfolding insert_sample
length-insert_sample x [] = refl
length-insert_sample x (y ∷ xs) = ground (arith, length-insert_sample x xs)

pub length-sort_samples : (xs : List ℤ) → length (sort_samples xs) ≡ length xs
unfolding sort_samples
length-sort_samples [] = refl
length-sort_samples (x ∷ xs) =
    length-insert_sample x (sort_samples xs) ∙ ap suc (length-sort_samples xs)

-- A place within the list has an item.
pub item_at-returns : (xs : List ℤ) (i : ℕ) → i < length xs → (x : ℤ) × (item_at xs i ≡ ok x)
unfolding item_at
item_at-returns [] i h = absurd (omega arith)
item_at-returns (x ∷ xs) zero h = (x, refl)
item_at-returns (x ∷ xs) (suc i) h = item_at-returns xs i (omega arith)

pub last_item-returns : (xs : List ℤ) → 0 < length xs → (x : ℤ) × (last_item xs ≡ ok x)
unfolding last_item
last_item-returns [] h = absurd (omega arith)
last_item-returns (x ∷ []) h = (x, refl)
last_item-returns (x ∷ y ∷ xs) h = last_item-returns (y ∷ xs) (omega arith)

-- What holds of all items holds of one.
All-item_at : (P : ℤ → Type 0) (xs : List ℤ) (i : ℕ) (x : ℤ) → All P xs → item_at xs i ≡ ok x → P x
unfolding item_at
All-item_at P [] i x h e = absurd (ground arith)
All-item_at P (y ∷ xs) zero x (h, hs) e = subst P (ok_injective y x e) h
All-item_at P (y ∷ xs) (suc i) x (h, hs) e = All-item_at P xs i x hs e

All-last_item : (P : ℤ → Type 0) (xs : List ℤ) (x : ℤ) → All P xs → last_item xs ≡ ok x → P x
unfolding last_item
All-last_item P [] x h e = absurd (ground arith)
All-last_item P (y ∷ []) x (h, hs) e = subst P (ok_injective y x e) h
All-last_item P (y ∷ z ∷ xs) x (h, hs) e = All-last_item P (z ∷ xs) x hs e

-- Items in order are no less than those before them.
pub item_at_mono :
    (xs : List ℤ) (i j : ℕ) (a b : ℤ)
    → IsSorted xs
    → i ≤ j
    → item_at xs i ≡ ok a
    → item_at xs j ≡ ok b
    → a ≤ℤ b
unfolding item_at
item_at_mono [] i j a b s l e k = absurd (ground arith)
item_at_mono (x ∷ xs) zero zero a b s l e k = ground arith
item_at_mono (x ∷ xs) zero (suc j) a b (h, s) l e k =
    subst (λ (y : ℤ). y ≤ℤ b) (ok_injective x a e) (All-item_at (λ y. x ≤ℤ y) xs j b h k)
item_at_mono (x ∷ xs) (suc i) zero a b s l e k = absurd (omega arith)
item_at_mono (x ∷ xs) (suc i) (suc j) a b (h, s) l e k = item_at_mono xs i j a b s (omega arith) e k

pub item_at-last_item :
    (xs : List ℤ) (i : ℕ) (a b : ℤ)
    → IsSorted xs
    → item_at xs i ≡ ok a
    → last_item xs ≡ ok b
    → a ≤ℤ b
unfolding item_at last_item
item_at-last_item [] i a b s e k = absurd (ground arith)
item_at-last_item (x ∷ []) zero a b s e k = ground arith
item_at-last_item (x ∷ []) (suc i) a b s e k = absurd (ground arith)
item_at-last_item (x ∷ y ∷ xs) zero a b (h, s) e k =
    subst (λ (z : ℤ). z ≤ℤ b) (ok_injective x a e) (All-last_item (λ z. x ≤ℤ z) (y ∷ xs) b h k)
item_at-last_item (x ∷ y ∷ xs) (suc i) a b (h, s) e k = item_at-last_item (y ∷ xs) i a b s e k
