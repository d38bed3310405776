-- ===== src/Config/File.antt =====
-- src/trade_risk_engine/config.py: the file, and the warnings on keys that are not known. The file system
-- and the YAML parser are parameters.
use verdict_risk.Prelude.{
  if◌then◌else◌, Bool-cases, any, String, ◌≡◌, refl, inl, inr, Bool, true, false, not, List, [],
  ◌∷◌, map, arith,
}
use verdict_risk.Py.Except.{Result, file_not_found_error, yaml_error, err, ok}
use verdict_risk.Py.Format.{join}
use verdict_risk.Config.{
  Yaml, Entries, lookup, section, RiskConfig, load_sections, load_risk_config, mapping, no_entries,
  entry, other_entry,
}
use text.Mathlib.Text.{◌==◌ as str_eq}

-- Whether the file exists, and what reading and parsing it returns or raises.
pub record ConfigFile : Type 0 where
  pub exists : Bool
  pub parsed : Result Yaml

-- The warnings, in order, and the result.
pub record Loaded : Type 0 where
  pub warnings : List String
  pub answer : Result RiskConfig

abbrev pub known_top_level_keys : List String
known_top_level_keys =
    "drawdown" ∷ "concentration" ∷ "expected_value" ∷ "consecutive_losses" ∷ "kelly" ∷ []

abbrev pub is_known : String → Bool
is_known key = any (str_eq key) known_top_level_keys

-- The keys that are not known, in order; one that is no string never is.
unfoldable pub unknown_keys : Entries → List String
unknown_keys no_entries = []
unknown_keys (entry key value rest) =
    let others = unknown_keys rest in if is_known key then others else key ∷ others
unknown_keys (other_entry key value rest) = key ∷ unknown_keys rest

abbrev pub warning : String → String → String
warning path key =
    join ("unknown top-level key '" ∷ key ∷ "' in risk config at " ∷ path ∷ " (ignored)" ∷ [])

-- What is parsed, as a mapping; other values are refused before any warning.
abbrev pub entries_of : Yaml → Entries
entries_of (mapping found) = found
entries_of _ = no_entries

unfoldable pub after_parse : String → Result Yaml → Loaded
after_parse path (err (yaml_error message)) = record {
  warnings = [];
  answer = err (yaml_error (join ("invalid YAML in risk config at " ∷ path ∷ ": " ∷ message ∷ [])));
}
after_parse path (err e) = record { warnings = []; answer = err e }
after_parse path (ok parsed) = record {
  warnings = map (warning path) (unknown_keys (entries_of parsed));
  answer = load_risk_config path parsed;
}

-- `load_risk_config`
unfoldable pub load_file : String → ConfigFile → Loaded
load_file path file =
    if not file.exists
    then record {
      warnings = [];
      answer = err (file_not_found_error (join ("risk config not found at " ∷ path ∷ [])));
    }
    else after_parse path file.parsed

-- The entries whose keys are known.
pub known_part : Entries → Entries
known_part no_entries = no_entries
known_part (entry key value rest) =
    let others = known_part rest in if is_known key then entry key value others else others
known_part (other_entry key value rest) = known_part rest

lookup-known_part :
    (name : String) (config : Entries)
    → ((key : String) → is_known key ≡ false → str_eq key name ≡ false)
    → lookup name (known_part config) ≡ lookup name config
unfolding lookup known_part
lookup-known_part name no_entries h = refl
lookup-known_part name (other_entry key value rest) h = lookup-known_part name rest h
lookup-known_part name (entry key value rest) h = elim (Bool-cases (is_known key)) [
  | inl good ↦ rw (good, lookup-known_part name rest h) refl
  | inr bad ↦ rw (bad, h key bad, lookup-known_part name rest h) refl
]

unknown_keys-known_part : (config : Entries) → unknown_keys (known_part config) ≡ []
unfolding unknown_keys known_part
unknown_keys-known_part no_entries = refl
unknown_keys-known_part (other_entry key value rest) = unknown_keys-known_part rest
unknown_keys-known_part (entry key value rest) = elim (Bool-cases (is_known key)) [
  | inl good ↦ rw (good, good) (unknown_keys-known_part rest)
  | inr bad ↦ rw bad (unknown_keys-known_part rest)
]

section-known_part :
    (path name : String) (config : Entries)
    → ((key : String) → is_known key ≡ false → str_eq key name ≡ false)
    → section path (known_part config) name ≡ section path config name
unfolding section
section-known_part path name config h = rw (section, lookup-known_part name config h) refl

-- Top-level keys that are not known change nothing but the warnings: without them the file loads,
-- or is refused, in the same way and with no warning.
pub load_file-known_part :
    (path : String) (config : Entries)
    → load_file path (record { exists = true; parsed = ok (mapping (known_part config)) })
      ≡ record {
        warnings = [];
        answer = (load_file path (record { exists = true; parsed = ok (mapping config) })).answer;
      }
unfolding load_file after_parse load_risk_config load_sections
load_file-known_part path config =
    rw
      (
        unknown_keys-known_part config,
        section-known_part path "drawdown" config (λ key h. ground arith),
        section-known_part path "concentration" config (λ key h. ground arith),
        section-known_part path "expected_value" config (λ key h. ground arith),
        section-known_part path "consecutive_losses" config (λ key h. ground arith),
        section-known_part path "kelly" config (λ key h. ground arith),
      )
      refl
