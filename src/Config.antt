-- ===== src/Config.antt =====
-- src/trade_risk_engine/config.py: what is made of the parsed YAML. `path` is the text of the resolved path,
-- which the messages name.
pub mod Ranges
pub mod Reads
pub mod File
mod Tests
use verdict_risk.Py.Format.{join, str_int, repr}
use verdict_risk.Prelude.{
  ltb, if◌then◌else◌, ℤ, ltb_ℤ, pos, negsuc, ◌*◌, ◌^◌, String, Bool, true, false, not, ◌&&◌, Option,
  none, some, [], ◌∷◌,
}
use verdict_risk.Py.Except.{
  Exception, Result, raise_if, ◌>>=◌, ◌>>◌, value_error, type_error, err, ok,
}
use verdict_risk.Py.Float.{plus, Float, finite, lt, le, eq, div, zero_float, one_float}
use verdict_risk.Py.Number.{to_float, int}
use text.Mathlib.Text.{◌==◌ as str_eq}

-- What `yaml.safe_load` returns. A value of any other type is its type's name and its truth value; a
-- key of a mapping is a string, or the text of what else it is.
mutual
  pub data Yaml : Type 0 where
    null : Yaml
    boolean : Bool → Yaml
    integer : ℤ → Yaml
    number : Float → Yaml
    string : String → Yaml
    other : String → Bool → Yaml
    mapping : Entries → Yaml

  pub data Entries : Type 0 where
    no_entries : Entries
    entry : String → Yaml → Entries → Entries
    other_entry : String → Yaml → Entries → Entries

-- `data.get(name)`
unfoldable pub lookup : String → Entries → Option Yaml
lookup name no_entries = none
lookup name (entry key value rest) =
    let later = lookup name rest in if str_eq key name then some value else later
lookup name (other_entry key value rest) = lookup name rest

abbrev pub is_truthy : Yaml → Bool
is_truthy null = false
is_truthy (boolean b) = b
is_truthy (integer (pos n)) = ltb 0 n
is_truthy (integer (negsuc n)) = true
is_truthy (number x) = not (eq x zero_float)
is_truthy (string s) = not (str_eq s "")
is_truthy (other name truth) = truth
is_truthy (mapping no_entries) = false
is_truthy (mapping (entry key value rest)) = true
is_truthy (mapping (other_entry key value rest)) = true

abbrev pub type_name : Yaml → String
type_name null = "NoneType"
type_name (boolean b) = "bool"
type_name (integer i) = "int"
type_name (number x) = "float"
type_name (string s) = "str"
type_name (other name truth) = name
type_name (mapping found) = "dict"

abbrev pub as_entries : Exception → Yaml → Result Entries
as_entries e (mapping found) = ok found
as_entries e _ = err e

-- `_section`
unfoldable pub section : String → Entries → String → Result Entries
section path config name = elim (lookup name config) [
  | none ↦ ok no_entries
  | some value ↦
      if is_truthy value
      then as_entries (type_error (join (name ∷ " must be a mapping (config: " ∷ path ∷ ")" ∷ [])))
          value
      else ok no_entries
]

-- `_require_number`
unfoldable pub require_number : String → String → Yaml → Result Float
require_number path yaml_key (integer i) = to_float (int i)
require_number path yaml_key (number x) = ok x
require_number path yaml_key value = err (
    type_error (
      join
        (yaml_key ∷ " must be a number, got " ∷ type_name value ∷ " (config: " ∷ path ∷ ")" ∷ [])))

-- A number, if it is there, that must pass a test.
unfoldable pub read_number :
    String → String → (Float → Bool) → String → Option Yaml → Result (Option Float)
read_number path yaml_key is_refused range none = ok none
read_number path yaml_key is_refused range (some raw) =
    require_number path yaml_key raw >>= λ value.
    raise_if (is_refused value) (
      value_error (
        join (
          yaml_key ∷ " must be " ∷ range ∷ ", got " ∷ repr value ∷ " (config: " ∷ path ∷ ")" ∷ [])))
    >> ok (some value)

-- `if key in section: ...`
unfoldable pub number_field :
    String → Entries → String → String → (Float → Bool) → String → Result (Option Float)
number_field path entries key yaml_key is_refused range =
    read_number path yaml_key is_refused range (lookup key entries)

-- `raw` must be an int, and not less than 0.
unfoldable pub require_limit : String → Yaml → Result (Option ℤ)
require_limit path (integer i) =
    raise_if (ltb_ℤ i (pos 0)) (
      value_error (
        join (
          "consecutive_losses.max_consecutive_losses must be >= 0, got "
          ∷ str_int i
          ∷ " (config: "
          ∷ path
          ∷ ")"
          ∷ [])))
    >> ok (some i)
require_limit path value = err (
    type_error (
      join (
        "consecutive_losses.max_consecutive_losses must be an int, got "
        ∷ type_name value
        ∷ " (config: "
        ∷ path
        ∷ ")"
        ∷ [])))

unfoldable pub read_limit : String → Option Yaml → Result (Option ℤ)
read_limit path none = ok none
read_limit path (some raw) = require_limit path raw

unfoldable pub limit_field : String → Entries → Result (Option ℤ)
limit_field path entries = read_limit path (lookup "max_consecutive_losses" entries)

-- `value / 60.0`
unfoldable pub minutes_of : Option Float → Result (Option Float)
minutes_of none = ok none
minutes_of (some value) = div value (finite plus (60 * 2 ^ 1074)) >>= λ minutes. ok (some minutes)

-- The keys of the dict that is returned, each if it was configured.
pub record RiskConfig : Type 0 where
  pub max_daily_drawdown_pct : Option Float
  pub max_correlated_exposure : Option Float
  pub max_cluster_usd : Option Float
  pub min_expected_value : Option Float
  pub consecutive_loss_limit : Option ℤ
  pub consecutive_loss_window_minutes : Option Float
  pub kelly_conservative_fraction : Option Float

abbrev pub outside_unit : Float → Bool
outside_unit value = not (lt zero_float value && le value one_float)

abbrev pub not_positive : Float → Bool
not_positive value = le value zero_float

-- The sections, in order.
unfoldable pub load_sections : String → Entries → Result RiskConfig
load_sections path config = do
  drawdown ← section path config "drawdown"
  daily ←
      number_field path drawdown "max_daily_drawdown_pct" "drawdown.max_daily_drawdown_pct"
        outside_unit "in (0, 1]"
  concentration ← section path config "concentration"
  exposure ←
      number_field path concentration "max_correlated_exposure"
        "concentration.max_correlated_exposure" not_positive "> 0"
  cluster ←
      number_field path concentration "max_cluster_usd" "concentration.max_cluster_usd" not_positive
        "> 0"
  expected_value ← section path config "expected_value"
  minimum ←
      number_field path expected_value "min_expected_value" "expected_value.min_expected_value"
        (λ value. false) ""
  losses ← section path config "consecutive_losses"
  limit ← limit_field path losses
  seconds ←
      number_field path losses "time_window_seconds" "consecutive_losses.time_window_seconds"
        not_positive "> 0"
  minutes ← minutes_of seconds
  kelly ← section path config "kelly"
  fraction ←
      number_field path kelly "conservative_fraction" "kelly.conservative_fraction" outside_unit
        "in (0, 1]"
  ok (record {
    max_daily_drawdown_pct = daily;
    max_correlated_exposure = exposure;
    max_cluster_usd = cluster;
    min_expected_value = minimum;
    consecutive_loss_limit = limit;
    consecutive_loss_window_minutes = minutes;
    kelly_conservative_fraction = fraction;
  })

-- `load_risk_config` of the parsed file
unfoldable pub load_risk_config : String → Yaml → Result RiskConfig
load_risk_config path null = load_sections path no_entries
load_risk_config path parsed =
    as_entries
      (type_error
        (join ("risk config at " ∷ path ∷ " must be a YAML mapping at the top level" ∷ [])))
      parsed
    >>= load_sections path
