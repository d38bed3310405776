-- ===== src/Provider/Arguments.antt =====
-- src/trade_risk_engine/provider.py: what the tests of a request's arguments take.

use verdict_risk.Py.Except.Ensures.{ok_of_bind, require-ok}
use verdict_risk.Py.Format.{join, repr}
use verdict_risk.Prelude.{
  ℕ, ◌+◌, String, ◌≡◌, refl, ap, ◌∙◌, ◌↔◌, ◌⊎◌, Bool, true, false, not, Option, none, some, List,
  [], ◌∷◌, arith,
}
use verdict_risk.Py.Except.{raise_if, ◌>>◌, require, risk_provider_error, ok}
use verdict_risk.State.{Position, TradeOutcome}
use verdict_risk.Py.Time.{Datetime}
use verdict_risk.Receipts.{Fields}
use verdict_risk.Py.Float.{Float, is_finite}
use verdict_risk.Py.Number.{Number, to_float}
use verdict_risk.Provider.Request.{
  Argument, Arguments, as_number, as_str, as_sequence, as_position, as_trade_outcome,
  as_optional_datetime, as_optional_mapping, require_finite, require_identifier, require_items,
  require_tuple_of, none_type, number, str, list_of, tuple_of, position, trade_outcome, datetime,
  mapping_of, end, argument,
}

-- An int or a float, and no bool, whose double is finite.
abbrev pub IsReal : Argument → Float → Type 0
IsReal value x = (n : Number) × (value ≡ number n) × (to_float n ≡ ok x) × (is_finite x ≡ true)

abbrev pub IsIdentifier : (String → Bool) → Argument → String → Type 0
IsIdentifier is_blank value s = (value ≡ str s) × (is_blank s ≡ false)

abbrev pub arguments_of : {A : Type 0} → (A → Argument) → List A → Arguments
arguments_of written [] = end
arguments_of written (a ∷ rest) = argument (written a) (arguments_of written rest)

-- A list or a tuple of the elements.
abbrev pub IsTupleOf : {A : Type 0} → (A → Argument) → Argument → List A → Type 0
IsTupleOf written value found =
    (value ≡ list_of (arguments_of written found)) ⊎ (value ≡ tuple_of (arguments_of written found))

abbrev pub IsOptionalDatetime : Argument → Option Datetime → Type 0
IsOptionalDatetime value none = value ≡ none_type
IsOptionalDatetime value (some at) = value ≡ datetime at

-- A mapping of whatever type, or None.
abbrev pub IsOptionalMapping : Argument → Option Fields → Type 0
IsOptionalMapping value none = value ≡ none_type
IsOptionalMapping value (some hints) = (name : String) × (value ≡ mapping_of name hints)

as_number-number : (value : Argument) (n : Number) → (as_number value ≡ some n) ↔ (value ≡ number n)
as_number-number value n = ground arith

as_str-str : (value : Argument) (s : String) → (as_str value ≡ some s) ↔ (value ≡ str s)
as_str-str value s = ground arith

as_position-position :
    (value : Argument) (p : Position) → (as_position value ≡ some p) ↔ (value ≡ position p)
as_position-position value p = ground arith

as_trade_outcome-trade_outcome :
    (value : Argument) (o : TradeOutcome)
    → (as_trade_outcome value ≡ some o) ↔ (value ≡ trade_outcome o)
as_trade_outcome-trade_outcome value o = ground arith

as_sequence_cases :
    (value : Argument) (items : Arguments)
    → (as_sequence value ≡ some items) ↔ ((value ≡ list_of items) ⊎ (value ≡ tuple_of items))
as_sequence_cases value items = ground arith

pub as_optional_datetime_cases :
    (value : Argument) (found : Option Datetime)
    → (as_optional_datetime value ≡ some found) ↔ IsOptionalDatetime value found
as_optional_datetime_cases value none = ground arith
as_optional_datetime_cases value (some at) = ground arith

pub as_optional_mapping_cases :
    (value : Argument) (found : Option Fields)
    → (as_optional_mapping value ≡ some found) ↔ IsOptionalMapping value found
as_optional_mapping_cases value none = ground arith
as_optional_mapping_cases value (some hints) = ground arith

pub require_finite-ok :
    (name : String) (value : Argument) (x : Float)
    → (require_finite name value ≡ ok x) ↔ IsReal value x
unfolding require_finite
require_finite-ok name value x = (
  λ h.
      let (n, e, g) = ok_of_bind (require (as_number value) _) _ x h in
      let (y, t, k) = ok_of_bind (to_float n) _ x g in
      let (same, f) = checked y k in
      (n, (as_number-number value n).0 ((require-ok (as_number value) _ n).0 e), t ∙ ap ok same, f),
  λ (n, e, t, f). rw (e, t, f) refl,
)
  where
    checked :
        (y : Float)
        → (raise_if
              (not (is_finite y))
              (risk_provider_error name (join ("must be finite, got " ∷ repr y ∷ [])))
            >> ok y)
          ≡ ok x
        → (y ≡ x) × (is_finite x ≡ true)
    checked y h = ground arith

pub require_identifier-ok :
    (is_blank : String → Bool) (name : String) (value : Argument) (s : String)
    → (require_identifier is_blank name value ≡ ok s) ↔ IsIdentifier is_blank value s
unfolding require_identifier
require_identifier-ok is_blank name value s = ground arith

-- The test tells which values are written elements.
abbrev Tells : {A : Type 0} → (Argument → Option A) → (A → Argument) → Type 0
Tells {A} as_item written =
    (value : Argument) (a : A) → (as_item value ≡ some a) ↔ (value ≡ written a)

require_items-ok :
    {A : Type 0} (as_item : Argument → Option A) (written : A → Argument) (item_type name : String)
    (index : ℕ) (items : Arguments) (found : List A)
    → Tells as_item written
    → (require_items as_item item_type name index items ≡ ok found)
      ↔ (items ≡ arguments_of written found)
unfolding require_items
require_items-ok as_item written item_type name index end [] tells = ground arith
require_items-ok as_item written item_type name index end (a ∷ rest) tells = ground arith
require_items-ok as_item written item_type name index (argument value more) [] tells = ground arith
require_items-ok as_item written item_type name index (argument value more) (a ∷ rest) tells =
    ground (
      arith,
      tells value a,
      require_items-ok as_item written item_type name (index + 1) more rest tells,
    )

require_tuple_of-ok :
    {A : Type 0} (as_item : Argument → Option A) (written : A → Argument) (item_type name : String)
    (value : Argument) (found : List A)
    → Tells as_item written
    → (require_tuple_of as_item item_type name value ≡ ok found) ↔ IsTupleOf written value found
unfolding require_tuple_of
require_tuple_of-ok as_item written item_type name value found tells = (
  λ h.
      let (items, e, g) = ok_of_bind (require (as_sequence value) _) _ found h in
      let same = (require_items-ok as_item written item_type name 0 items found tells).0 g in
      (as_sequence_cases value (arguments_of written found)).0
        ((require-ok (as_sequence value) _ items).0 e ∙ ap some same),
  λ h.
      let e = (as_sequence_cases value (arguments_of written found)).1 h in
      let g =
        (require_items-ok as_item written item_type name 0 (arguments_of written found) found
            tells).1
          refl in
      rw (e, g) refl,
)

pub require_positions-ok :
    (value : Argument) (found : List Position)
    → (require_tuple_of as_position "Position" "open_positions" value ≡ ok found)
      ↔ IsTupleOf position value found
require_positions-ok value found =
    require_tuple_of-ok as_position position "Position" "open_positions" value found
      as_position-position

pub require_trade_outcomes-ok :
    (value : Argument) (found : List TradeOutcome)
    → (require_tuple_of as_trade_outcome "TradeOutcome" "trade_outcomes" value ≡ ok found)
      ↔ IsTupleOf trade_outcome value found
require_trade_outcomes-ok value found =
    require_tuple_of-ok as_trade_outcome trade_outcome "TradeOutcome" "trade_outcomes" value found
      as_trade_outcome-trade_outcome
