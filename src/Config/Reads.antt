-- ===== src/Config/Reads.antt =====
-- src/trade_risk_engine/config.py: which documents load, and what is read of them.

use verdict_risk.Py.Except.Ensures.{ok_of_bind, ok_injective}
use verdict_risk.Py.Except.{ok}
use verdict_risk.Py.Float.{Float}
use verdict_risk.Config.{
  Yaml, Entries, lookup, section, number_field, limit_field, minutes_of, RiskConfig, outside_unit,
  not_positive, load_sections, load_risk_config, null, boolean, integer, number, string, other,
  mapping, no_entries,
}
use verdict_risk.Config.Ranges.{
  InUnit, IsPositiveOrNan, HoldsNumber, HoldsLimit, HasSection, HoldsMinutes, unit_field_iff,
  positive_field_iff, any_field_iff, limit_field_iff, minutes_of_iff, section_iff,
}
use verdict_risk.Prelude.{String, ◌≡◌, refl, subst, ◌↔◌, ◌⊎◌, inl, inr, false, Option, arith}

-- What the sections hold is the configuration.
abbrev pub Loads : Entries → RiskConfig → Type 0
Loads config c =
    ((drawdown : Entries) × HasSection config "drawdown" drawdown
      × HoldsNumber InUnit (lookup "max_daily_drawdown_pct" drawdown) c.max_daily_drawdown_pct)
    × ((concentration : Entries) × HasSection config "concentration" concentration
        × HoldsNumber IsPositiveOrNan (lookup "max_correlated_exposure" concentration)
            c.max_correlated_exposure
        × HoldsNumber IsPositiveOrNan (lookup "max_cluster_usd" concentration) c.max_cluster_usd)
    × ((expected_value : Entries) × HasSection config "expected_value" expected_value
        × HoldsNumber (λ x. Unit) (lookup "min_expected_value" expected_value) c.min_expected_value)
    × ((losses : Entries) × HasSection config "consecutive_losses" losses
        × HoldsLimit losses c.consecutive_loss_limit
        × (seconds : Option Float) × HoldsNumber IsPositiveOrNan
            (lookup "time_window_seconds" losses) seconds
        × HoldsMinutes seconds c.consecutive_loss_window_minutes)
    × ((kelly : Entries) × HasSection config "kelly" kelly
        × HoldsNumber InUnit (lookup "conservative_fraction" kelly) c.kelly_conservative_fraction)

load_sections-Loads :
    (path : String) (config : Entries) (c : RiskConfig)
    → load_sections path config ≡ ok c
    → Loads config c
unfolding load_sections
load_sections-Loads path config c h =
    let (dd, sd, h) = ok_of_bind (section path config "drawdown") _ c h in
    let (d, ed, h) = ok_of_bind (number_field path dd _ _ outside_unit _) _ c h in
    let (con, sc, h) = ok_of_bind (section path config "concentration") _ c h in
    let (x, ex, h) = ok_of_bind (number_field path con _ _ not_positive _) _ c h in
    let (u, eu, h) = ok_of_bind (number_field path con _ _ not_positive _) _ c h in
    let (ev, se, h) = ok_of_bind (section path config "expected_value") _ c h in
    let (m, em, h) = ok_of_bind (number_field path ev _ _ (λ value. false) _) _ c h in
    let (ls, sl, h) = ok_of_bind (section path config "consecutive_losses") _ c h in
    let (l, el, h) = ok_of_bind (limit_field path ls) _ c h in
    let (s, es, h) = ok_of_bind (number_field path ls _ _ not_positive _) _ c h in
    let (w, ew, h) = ok_of_bind (minutes_of s) _ c h in
    let (kl, sk, h) = ok_of_bind (section path config "kelly") _ c h in
    let (k, ek, h) = ok_of_bind (number_field path kl _ _ outside_unit _) _ c h in
    subst (Loads config) (ok_injective _ c h) (
      (dd, (section_iff path config _ dd).0 sd, (unit_field_iff path dd _ _ _ d).0 ed),
      (
        con,
        (section_iff path config _ con).0 sc,
        (positive_field_iff path con _ _ _ x).0 ex,
        (positive_field_iff path con _ _ _ u).0 eu,
      ),
      (ev, (section_iff path config _ ev).0 se, (any_field_iff path ev _ _ _ m).0 em),
      (
        ls,
        (section_iff path config _ ls).0 sl,
        (limit_field_iff path ls l).0 el,
        s,
        (positive_field_iff path ls _ _ _ s).0 es,
        (minutes_of_iff s w).0 ew,
      ),
      (kl, (section_iff path config _ kl).0 sk, (unit_field_iff path kl _ _ _ k).0 ek),
    )

Loads-load_sections :
    (path : String) (config : Entries) (c : RiskConfig)
    → Loads config c
    → load_sections path config ≡ ok c
unfolding load_sections
Loads-load_sections path config c
      ((dd, sd, d), (con, sc, x, u), (ev, se, m), (ls, sl, l, s, es, w), (kl, sk, k)) =
    rw
      (
        (section_iff path config "drawdown" dd).1 sd,
        (unit_field_iff path dd _ _ _ c.max_daily_drawdown_pct).1 d,
        (section_iff path config "concentration" con).1 sc,
        (positive_field_iff path con _ _ _ c.max_correlated_exposure).1 x,
        (positive_field_iff path con _ _ _ c.max_cluster_usd).1 u,
        (section_iff path config "expected_value" ev).1 se,
        (any_field_iff path ev _ _ _ c.min_expected_value).1 m,
        (section_iff path config "consecutive_losses" ls).1 sl,
        (limit_field_iff path ls c.consecutive_loss_limit).1 l,
        (positive_field_iff path ls _ _ _ s).1 es,
        (minutes_of_iff s c.consecutive_loss_window_minutes).1 w,
        (section_iff path config "kelly" kl).1 sk,
        (unit_field_iff path kl _ _ _ c.kelly_conservative_fraction).1 k,
      )
      refl

-- The document, where an empty one is an empty mapping.
abbrev pub IsDocument : Yaml → Entries → Type 0
IsDocument parsed config = (parsed ≡ mapping config) ⊎ ((parsed ≡ null) × (config ≡ no_entries))

load_risk_config-load_sections :
    (path : String) (parsed : Yaml) (c : RiskConfig)
    → (load_risk_config path parsed ≡ ok c)
      ↔ ((config : Entries) × IsDocument parsed config × (load_sections path config ≡ ok c))
unfolding load_risk_config
load_risk_config-load_sections path null c = (
  λ h. (no_entries, inr (refl, refl), h),
  λ (config, d, e). elim d [
    | inl p ↦ absurd (cc)
    | inr (p, q) ↦ subst (λ m. load_sections path m ≡ ok c) q e
  ],
)
load_risk_config-load_sections path (mapping held) c = (
  λ h. (held, inl refl, h),
  λ (config, d, e). elim d [
    | inl p ↦
        (let same : config ≡ held = ground arith in subst (λ m. load_sections path m ≡ ok c) same e)
    | inr (p, q) ↦ absurd (cc)
  ],
)
load_risk_config-load_sections path (boolean b) c = ground arith
load_risk_config-load_sections path (integer i) c = ground arith
load_risk_config-load_sections path (number x) c = ground arith
load_risk_config-load_sections path (string s) c = ground arith
load_risk_config-load_sections path (other name truth) c = ground arith

-- The parsed YAML loads as a configuration exactly when it is a mapping or empty, each section is
-- a mapping, missing, or false to Python, and each field of the configuration is what its key in
-- its section holds, absent if the key is: a number, or an int that is converted, with the daily
-- drawdown limit and the Kelly fraction finite, above 0 and at most 1, the exposure limit, the
-- cluster ceiling and the loss window in seconds above 0, infinite or NaN, the window divided by
-- 60, and the loss limit an int that is not negative.
pub load_risk_config_iff :
    (path : String) (parsed : Yaml) (c : RiskConfig)
    → (load_risk_config path parsed ≡ ok c)
      ↔ ((config : Entries) × IsDocument parsed config × Loads config c)
load_risk_config_iff path parsed c =
    let whole = load_risk_config-load_sections path parsed c in
    (
      λ h. let (config, d, e) = whole.0 h in (config, d, load_sections-Loads path config c e),
      λ (config, d, e). whole.1 (config, d, Loads-load_sections path config c e),
    )
