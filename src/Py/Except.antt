-- ===== src/Py/Except.antt =====
-- Python's exceptions as values: a call returns, or raises with a message.
pub mod Ensures
use verdict_risk.Prelude.{String, Bool, true, false, Option, none, some}

pub data Exception : Type 0 where
  value_error : String → Exception
  type_error : String → Exception
  overflow_error : String → Exception
  index_error : String → Exception
  key_error : String → Exception
  file_not_found_error : String → Exception
  yaml_error : String → Exception
  zero_division_error : String → Exception
  runtime_error : String → Exception
  -- `RiskProviderError`: the field, and what is wrong with it
  risk_provider_error : String → String → Exception

pub data Result {ℓ} (Value : Type ℓ) : Type ℓ where
  err : Exception → Result Value
  ok : Value → Result Value

-- `if test: raise e`
abbrev pub raise_if : Bool → Exception → Result (Unit {0})
raise_if false e = ok tt
raise_if true e = err e

-- The code after a call that may raise.
infixl 5 ◌>>=◌
abbrev pub ◌>>=◌ {ℓ ℓ'} :
    {Value : Type ℓ} {Next : Type ℓ'} → Result Value → (Value → Result Next) → Result Next
err e >>= next = err e
ok value >>= next = next value

infixl 5 ◌>>◌
abbrev pub ◌>>◌ {ℓ} : {Next : Type ℓ} → Result (Unit {0}) → Result Next → Result Next
err e >> next = err e
ok done >> next = next

-- What a test yields, or an exception.
abbrev pub require {ℓ} : {A : Type ℓ} → Option A → Exception → Result A
require none e = err e
require (some a) e = ok a
