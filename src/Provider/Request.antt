-- ===== src/Provider/Request.antt =====
-- src/trade_risk_engine/provider.py: the request of the provider, which its construction validates.
-- `is_blank` is `not s.strip()`.

use verdict_risk.Prelude.{ℕ, ◌+◌, String, Bool, not, Option, none, some, List, [], ◌∷◌}
use verdict_risk.Py.Except.{Result, raise_if, ◌>>=◌, ◌>>◌, require, risk_provider_error, ok}
use verdict_risk.Py.Float.{Float, is_finite}
use verdict_risk.Py.Number.{Number, to_float, int, float}
use verdict_risk.Py.Time.{Datetime}
use verdict_risk.Py.Format.{join, str_nat, repr}
use verdict_risk.State.{Position, TradeOutcome}
use verdict_risk.Receipts.{Fields}

-- What a caller passes for a field: a value of any type. A mapping and what else there is carry the
-- name of their type.
mutual
  pub data Argument : Type 0 where
    none_type : Argument
    flag : Bool → Argument
    number : Number → Argument
    str : String → Argument
    list_of : Arguments → Argument
    tuple_of : Arguments → Argument
    position : Position → Argument
    trade_outcome : TradeOutcome → Argument
    datetime : Datetime → Argument
    mapping_of : String → Fields → Argument
    other : String → Argument

  pub data Arguments : Type 0 where
    end : Arguments
    argument : Argument → Arguments → Arguments

-- `type(value).__name__`
unfoldable pub type_name : Argument → String
type_name none_type = "NoneType"
type_name (flag b) = "bool"
type_name (number (int i)) = "int"
type_name (number (float x)) = "float"
type_name (str s) = "str"
type_name (list_of _) = "list"
type_name (tuple_of items) = "tuple"
type_name (position p) = "Position"
type_name (trade_outcome o) = "TradeOutcome"
type_name (datetime at) = "datetime"
type_name (mapping_of name _) = name
type_name (other name) = name

-- The tests with `isinstance`, each with what the value then is. A bool is no number here.
abbrev pub as_number : Argument → Option Number
as_number (number n) = some n
as_number _ = none

abbrev pub as_str : Argument → Option String
as_str (str s) = some s
as_str _ = none

abbrev pub as_sequence : Argument → Option Arguments
as_sequence (list_of items) = some items
as_sequence (tuple_of items) = some items
as_sequence _ = none

abbrev pub as_position : Argument → Option Position
as_position (position p) = some p
as_position _ = none

abbrev pub as_trade_outcome : Argument → Option TradeOutcome
as_trade_outcome (trade_outcome o) = some o
as_trade_outcome _ = none

-- A value, or None.
abbrev pub as_optional_datetime : Argument → Option (Option Datetime)
as_optional_datetime none_type = some none
as_optional_datetime (datetime at) = some (some at)
as_optional_datetime _ = none

abbrev pub as_optional_mapping : Argument → Option (Option Fields)
as_optional_mapping none_type = some none
as_optional_mapping (mapping_of name hints) = some (some hints)
as_optional_mapping _ = none

-- `_require_finite`
unfoldable pub require_finite : String → Argument → Result Float
require_finite name value = do
  n ←
      require (as_number value)
        (risk_provider_error name (join ("expected a real number, got " ∷ type_name value ∷ [])))
  x ← to_float n
  raise_if (not (is_finite x))
      (risk_provider_error name (join ("must be finite, got " ∷ repr x ∷ [])))
  ok x

-- `_require_identifier`
unfoldable pub require_identifier : (String → Bool) → String → Argument → Result String
require_identifier is_blank name value = do
  s ← require (as_str value) (risk_provider_error name "expected a non-empty string")
  raise_if (is_blank s) (risk_provider_error name "expected a non-empty string")
  ok s

-- The loop of `_require_tuple_of` from an index, with the test for the type and its name.
unfoldable pub require_items :
    {A : Type 0} → (Argument → Option A) → String → String → ℕ → Arguments → Result (List A)
require_items as_item item_type name index end = ok []
require_items as_item item_type name index (argument value rest) = do
  a ← require (as_item value) (
      risk_provider_error name (
        join ("item " ∷ str_nat index ∷ " is " ∷ type_name value ∷ ", expected " ∷ item_type ∷ [])))
  more ← require_items as_item item_type name (index + 1) rest
  ok (a ∷ more)

-- `_require_tuple_of`
unfoldable pub require_tuple_of :
    {A : Type 0} → (Argument → Option A) → String → String → Argument → Result (List A)
require_tuple_of as_item item_type name value = do
  items ←
      require (as_sequence value)
        (risk_provider_error name (join ("expected a sequence of " ∷ item_type ∷ [])))
  require_items as_item item_type name 0 items

-- What the constructor is called with.
pub record RequestArguments : Type 0 where
  pub run_id : Argument
  pub daily_realized_pnl : Argument
  pub equity : Argument
  pub target_family : Argument
  pub proposed_cost : Argument
  pub expected_value : Argument
  pub open_positions : Argument
  pub trade_outcomes : Argument
  pub current_time : Argument
  pub advisory : Argument

-- The fields of `RiskProviderRequest` after `__post_init__`.
pub record RiskProviderRequest : Type 0 where
  pub run_id : String
  pub daily_realized_pnl : Float
  pub equity : Float
  pub target_family : String
  pub proposed_cost : Float
  pub expected_value : Float
  pub open_positions : List Position
  pub trade_outcomes : List TradeOutcome
  pub current_time : Option Datetime
  pub advisory : Option Fields

-- `RiskProviderRequest.__post_init__`
unfoldable pub request_init : (String → Bool) → RequestArguments → Result RiskProviderRequest
request_init is_blank args = do
  run_id ← require_identifier is_blank "run_id" args.run_id
  target_family ← require_identifier is_blank "target_family" args.target_family
  daily_realized_pnl ← require_finite "daily_realized_pnl" args.daily_realized_pnl
  equity ← require_finite "equity" args.equity
  proposed_cost ← require_finite "proposed_cost" args.proposed_cost
  expected_value ← require_finite "expected_value" args.expected_value
  open_positions ← require_tuple_of as_position "Position" "open_positions" args.open_positions
  trade_outcomes ←
      require_tuple_of as_trade_outcome "TradeOutcome" "trade_outcomes" args.trade_outcomes
  current_time ←
      require (as_optional_datetime args.current_time)
        (risk_provider_error "current_time" "expected a datetime or None")
  advisory ←
      require (as_optional_mapping args.advisory)
        (risk_provider_error "advisory" "expected a mapping or None")
  ok (record {
    run_id = run_id;
    daily_realized_pnl = daily_realized_pnl;
    equity = equity;
    target_family = target_family;
    proposed_cost = proposed_cost;
    expected_value = expected_value;
    open_positions = open_positions;
    trade_outcomes = trade_outcomes;
    current_time = current_time;
    advisory = advisory;
  })
