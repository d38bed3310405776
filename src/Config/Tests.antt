-- ===== src/Config/Tests.antt =====
-- Runs of the loader, and its theorem at a concrete input.
use verdict_risk.Prelude.{pos, ◌*◌, ◌^◌, ◌≡◌, ◌↔◌, refl, true, none, some, [], ◌∷◌}
use verdict_risk.Py.Except.{ok}
use verdict_risk.Py.Format.{join}
use verdict_risk.Py.Float.{plus, nan, finite, lt, le, magnitude, round, of_ratio, one_float}
use verdict_risk.Py.Number.{of_int, no_overflow, to_float}
use verdict_risk.Config.{
  Yaml, Entries, lookup, section, require_number, read_number, number_field, read_limit,
  limit_field, minutes_of, RiskConfig, load_sections, load_risk_config, integer, number, mapping,
  no_entries, entry,
}
use verdict_risk.Config.File.{
  unknown_keys, after_parse, load_file, known_part, load_file-known_part,
}
use verdict_risk.Config.Reads.{Loads, IsDocument, load_risk_config_iff}

abbrev no_config : RiskConfig
no_config = record {
  max_daily_drawdown_pct = none;
  max_correlated_exposure = none;
  max_cluster_usd = none;
  min_expected_value = none;
  consecutive_loss_limit = none;
  consecutive_loss_window_minutes = none;
  kelly_conservative_fraction = none;
}

-- concentration: {max_cluster_usd: x}
abbrev ceiling : Yaml → Yaml
ceiling x =
    mapping (entry "concentration" (mapping (entry "max_cluster_usd" x no_entries)) no_entries)

-- A ceiling that is an integer is converted.
integer_ceiling :
    load_risk_config "risk.yaml" (ceiling (integer (pos 80)))
    ≡ ok (record no_config { max_cluster_usd = some (finite plus (80 * 2 ^ 1074)) })
unfolding load_risk_config load_sections section lookup number_field read_number require_number
    to_float of_int no_overflow of_ratio round magnitude le lt limit_field read_limit minutes_of
integer_ceiling = refl

-- A ceiling of `.nan` passes the test `value <= 0.0`.
nan_ceiling :
    load_risk_config "risk.yaml" (ceiling (number nan))
    ≡ ok (record no_config { max_cluster_usd = some nan })
unfolding load_risk_config load_sections section lookup number_field read_number require_number le
    lt limit_field read_limit minutes_of
nan_ceiling = refl

abbrev ceiling_of_80 : RiskConfig
ceiling_of_80 = record no_config { max_cluster_usd = some (finite plus (80 * 2 ^ 1074)) }

load_risk_config_iff_example :
    (load_risk_config "risk.yaml" (ceiling (integer (pos 80))) ≡ ok ceiling_of_80) ↔ (
      (config : Entries) × IsDocument (ceiling (integer (pos 80))) config
      × Loads config ceiling_of_80)
load_risk_config_iff_example =
    load_risk_config_iff "risk.yaml" (ceiling (integer (pos 80))) ceiling_of_80

-- A key that is not known beside a section.
abbrev extended : Entries
extended = entry "leverage" (integer (pos 3)) (
    entry "kelly" (mapping (entry "conservative_fraction" (integer (pos 1)) no_entries)) no_entries)

-- The file is warned of, and loads.
extended_loads :
    load_file "risk.yaml" (record { exists = true; parsed = ok (mapping extended) }) ≡ record {
      warnings = "unknown top-level key 'leverage' in risk config at risk.yaml (ignored)" ∷ [];
      answer = ok (record no_config { kelly_conservative_fraction = some one_float });
    }
unfolding load_file after_parse unknown_keys load_risk_config load_sections section lookup
    number_field read_number require_number to_float of_int no_overflow of_ratio round magnitude le
    lt limit_field read_limit minutes_of join
extended_loads = refl

load_file-known_part_example :
    load_file "risk.yaml" (record { exists = true; parsed = ok (mapping (known_part extended)) })
    ≡ record {
      warnings = [];
      answer =
          (load_file "risk.yaml" (record { exists = true; parsed = ok (mapping extended) })).answer;
    }
load_file-known_part_example = load_file-known_part "risk.yaml" extended
