-- ===== src/Py/Except/Ensures.antt =====
-- What holds of the value of a call, if it returns.
use verdict_risk.Prelude.{
  if◌then◌else◌, ◌≡◌, refl, subst, ◌↔◌, Bool, true, false, Option, some, arith,
}
use verdict_risk.Py.Except.{Exception, Result, raise_if, ◌>>=◌, ◌>>◌, require, err, ok}

abbrev pub Ensures {ℓ} : {A : Type ℓ} → (A → Type 0) → Result A → Type 0
Ensures P (err e) = Unit
Ensures P (ok a) = P a

pub Ensures-if {ℓ} :
    {A : Type ℓ} (P : A → Type 0) (b : Bool) (x y : Result A)
    → (b ≡ true → Ensures P x)
    → (b ≡ false → Ensures P y)
    → Ensures P (if b then x else y)
Ensures-if P true x y h k = h (λ i. true)
Ensures-if P false x y h k = k (λ i. false)

pub Ensures-bind {ℓ κ} :
    {A : Type ℓ} {B : Type κ} (P : B → Type 0) (m : Result A) (f : A → Result B)
    → ((a : A) → m ≡ ok a → Ensures P (f a))
    → Ensures P (m >>= f)
Ensures-bind P (err e) f h = tt
Ensures-bind P (ok a) f h = h a (λ i. ok a)

-- From a call that has returned.
pub Ensures-returned {ℓ} :
    {A : Type ℓ} (P : A → Type 0) (m : Result A) (a : A) → Ensures P m → m ≡ ok a → P a
Ensures-returned P m a h e = subst (Ensures P) e h

-- A call that returns has returned before what follows it.
pub ok_of_bind :
    {A B : Type 0} (m : Result A) (next : A → Result B) (b : B)
    → (m >>= next) ≡ ok b
    → (a : A) × (m ≡ ok a) × (next a ≡ ok b)
ok_of_bind (err e) next b h = absurd (ground arith)
ok_of_bind (ok a) next b h = (a, refl, h)

pub require-ok :
    {A : Type 0} (m : Option A) (e : Exception) (a : A) → (require m e ≡ ok a) ↔ (m ≡ some a)
require-ok m e a = ground arith

-- After a test that did not raise.
pub raise_if-ok :
    {A : Type 0} (test : Bool) (e : Exception) (next : Result A) (a : A)
    → ((raise_if test e >> next) ≡ ok a) ↔ ((test ≡ false) × (next ≡ ok a))
raise_if-ok test e next a = ground arith

pub ok_injective {ℓ} : {A : Type ℓ} (a b : A) → ok a ≡ ok b → a ≡ b
ok_injective a b h = ground arith
