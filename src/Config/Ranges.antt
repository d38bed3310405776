-- ===== src/Config/Ranges.antt =====
-- src/trade_risk_engine/config.py: what each part of the loader takes, and in which range.

use verdict_risk.Py.Except.Ensures.{ok_of_bind, raise_if-ok, ok_injective}
use verdict_risk.Py.Except.{ok}
use verdict_risk.Py.Float.{plus, minus, Float, nan, infinite, finite, lt, le, div}
use verdict_risk.Py.Number.{to_float, int}
use verdict_risk.Config.{
  Yaml, Entries, lookup, is_truthy, section, require_number, read_number, number_field,
  require_limit, read_limit, limit_field, minutes_of, outside_unit, not_positive, null, boolean,
  integer, number, string, other, mapping, no_entries,
}
use verdict_risk.Prelude.{
  ℤ, ◌≤ℤ◌, pos, ◌*◌, ◌^◌, ◌≤◌, String, ◌≡◌, refl, subst, ◌↔◌, ◌⊎◌, inl, inr, Bool, false, Option,
  none, some, arith,
}

-- Above 0 and at most 1, in units of the smallest double.
abbrev pub InUnit : Float → Type 0
InUnit nan = ⊥
InUnit (infinite s) = ⊥
InUnit (finite minus m) = ⊥
InUnit (finite plus m) = (1 ≤ m) × (m ≤ 2 ^ 1074)

-- Above 0, an infinity included, or NaN.
abbrev pub IsPositiveOrNan : Float → Type 0
IsPositiveOrNan nan = Unit
IsPositiveOrNan (infinite plus) = Unit
IsPositiveOrNan (infinite minus) = ⊥
IsPositiveOrNan (finite plus m) = 1 ≤ m
IsPositiveOrNan (finite minus m) = ⊥

-- A number that is no bool; an int is converted.
abbrev pub IsNumber : Yaml → Float → Type 0
IsNumber raw x = (raw ≡ number x) ⊎ ((i : ℤ) × (raw ≡ integer i) × (to_float (int i) ≡ ok x))

-- The number that was found under a key, in its range, if the key is there.
abbrev pub HoldsNumber : (Float → Type 0) → Option Yaml → Option Float → Type 0
HoldsNumber P got none = got ≡ none
HoldsNumber P got (some x) = (raw : Yaml) × (got ≡ some raw) × IsNumber raw x × P x

abbrev pub HoldsLimit : Entries → Option ℤ → Type 0
HoldsLimit held none = lookup "max_consecutive_losses" held ≡ none
HoldsLimit held (some i) = (lookup "max_consecutive_losses" held ≡ some (integer i)) × (pos 0 ≤ℤ i)

-- The mapping under a name; nothing, or what Python takes for false, is an empty one.
abbrev pub HasSection : Entries → String → Entries → Type 0
HasSection config name held =
    (lookup name config ≡ some (mapping held))
    ⊎ ((held ≡ no_entries)
        × ((lookup name config ≡ none)
            ⊎ ((raw : Yaml) × (lookup name config ≡ some raw) × (is_truthy raw ≡ false))))

-- The window in minutes, of one in seconds.
abbrev pub HoldsMinutes : Option Float → Option Float → Type 0
HoldsMinutes none none = Unit
HoldsMinutes none (some minutes) = ⊥
HoldsMinutes (some seconds) none = ⊥
HoldsMinutes (some seconds) (some minutes) = div seconds (finite plus (60 * 2 ^ 1074)) ≡ ok minutes

require_number_iff :
    (path yaml_key : String) (raw : Yaml) (x : Float)
    → (require_number path yaml_key raw ≡ ok x) ↔ IsNumber raw x
unfolding require_number
require_number_iff path yaml_key (integer i) x =
    (λ h. inr (i, refl, h), λ h. elim h [ inl e ↦ absurd (cc) | inr (j, e, f) ↦ ground arith ])
require_number_iff path yaml_key (number y) x =
    (λ h. inl (ground arith), λ h. elim h [ inl e ↦ ground arith | inr (j, e, f) ↦ absurd (cc) ])
require_number_iff path yaml_key null x = ground arith
require_number_iff path yaml_key (boolean b) x = ground arith
require_number_iff path yaml_key (string s) x = ground arith
require_number_iff path yaml_key (other name truth) x = ground arith
require_number_iff path yaml_key (mapping held) x = ground arith

-- The test refuses what is not in the range.
abbrev Tests : (Float → Bool) → (Float → Type 0) → Type 0
Tests is_refused P = (value : Float) → (is_refused value ≡ false) ↔ P value

outside_unit-Tests : Tests outside_unit InUnit
unfolding lt le
outside_unit-Tests nan = ground arith
outside_unit-Tests (infinite plus) = ground arith
outside_unit-Tests (infinite minus) = ground arith
outside_unit-Tests (finite minus m) = ground arith
outside_unit-Tests (finite plus m) = ground arith

not_positive-Tests : Tests not_positive IsPositiveOrNan
unfolding le
not_positive-Tests nan = ground arith
not_positive-Tests (infinite plus) = ground arith
not_positive-Tests (infinite minus) = ground arith
not_positive-Tests (finite minus m) = ground arith
not_positive-Tests (finite plus m) = ground arith

never-Tests : Tests (λ value. false) (λ x. Unit)
never-Tests value = ground arith

read_number_iff :
    (path yaml_key : String) (is_refused : Float → Bool) (range : String) (P : Float → Type 0)
    (got : Option Yaml) (found : Option Float)
    → Tests is_refused P
    → (read_number path yaml_key is_refused range got ≡ ok found) ↔ HoldsNumber P got found
unfolding read_number
read_number_iff path yaml_key is_refused range P none none tests = ground arith
read_number_iff path yaml_key is_refused range P none (some x) tests = ground arith
read_number_iff path yaml_key is_refused range P (some raw) found tests = (
  λ h.
      let (x, e, k) = ok_of_bind (require_number path yaml_key raw) _ found h in
      let (good, same) = (raise_if-ok (is_refused x) _ (ok (some x)) found).0 k in
      subst (HoldsNumber P (some raw)) (ok_injective (some x) found same)
        (raw, refl, (require_number_iff path yaml_key raw x).0 e, (tests x).0 good),
  read found,
)
  where
    read :
        (found : Option Float)
        → HoldsNumber P (some raw) found
        → read_number path yaml_key is_refused range (some raw) ≡ ok found
    read none h = absurd (ground arith)
    read (some x) (raw', e, n, p) =
        let same : raw' ≡ raw = ground arith in
        let number_read =
          (require_number_iff path yaml_key raw x).1 (subst (λ r. IsNumber r x) same n) in
        rw (number_read, (tests x).1 p) refl

number_field_iff :
    (path : String) (held : Entries) (key yaml_key : String) (is_refused : Float → Bool)
    (range : String) (P : Float → Type 0) (found : Option Float)
    → Tests is_refused P
    → (number_field path held key yaml_key is_refused range ≡ ok found)
      ↔ HoldsNumber P (lookup key held) found
unfolding number_field
number_field_iff path held key yaml_key is_refused range P found tests =
    read_number_iff path yaml_key is_refused range P (lookup key held) found tests

pub unit_field_iff :
    (path : String) (held : Entries) (key yaml_key range : String) (found : Option Float)
    → (number_field path held key yaml_key outside_unit range ≡ ok found)
      ↔ HoldsNumber InUnit (lookup key held) found
unit_field_iff path held key yaml_key range found =
    number_field_iff path held key yaml_key outside_unit range InUnit found outside_unit-Tests

pub positive_field_iff :
    (path : String) (held : Entries) (key yaml_key range : String) (found : Option Float)
    → (number_field path held key yaml_key not_positive range ≡ ok found)
      ↔ HoldsNumber IsPositiveOrNan (lookup key held) found
positive_field_iff path held key yaml_key range found =
    number_field_iff path held key yaml_key not_positive range IsPositiveOrNan found
      not_positive-Tests

pub any_field_iff :
    (path : String) (held : Entries) (key yaml_key range : String) (found : Option Float)
    → (number_field path held key yaml_key (λ value. false) range ≡ ok found)
      ↔ HoldsNumber (λ x. Unit) (lookup key held) found
any_field_iff path held key yaml_key range found =
    number_field_iff path held key yaml_key (λ value. false) range (λ x. Unit) found never-Tests

pub limit_field_iff :
    (path : String) (held : Entries) (found : Option ℤ)
    → (limit_field path held ≡ ok found) ↔ HoldsLimit held found
unfolding limit_field read_limit require_limit
limit_field_iff path held none = ground arith
limit_field_iff path held (some i) = ground arith

pub minutes_of_iff :
    (seconds minutes : Option Float)
    → (minutes_of seconds ≡ ok minutes) ↔ HoldsMinutes seconds minutes
unfolding minutes_of
minutes_of_iff none none = ground arith
minutes_of_iff none (some m) = ground arith
minutes_of_iff (some s) none = ground arith
minutes_of_iff (some s) (some m) = ground arith

pub section_iff :
    (path : String) (config : Entries) (name : String) (held : Entries)
    → (section path config name ≡ ok held) ↔ HasSection config name held
unfolding section
section_iff path config name held = ground arith
