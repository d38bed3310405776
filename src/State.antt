-- ===== src/State.antt =====
-- src/trade_risk_engine/state.py: the configuration, the positions and outcomes that the gates read,
-- the decision that they write, and the snapshots of the stateful gates. A constructor that
-- validates is a function into `Result`; Python's type checks on ints and strings are the types here,
-- and an int that is validated to be at least 0 is kept as a natural number.
pub mod Json
use verdict_risk.Prelude.{
  length, ℤ, pos_part, ltb_ℤ, pos, ℕ, String, Bool, not, ◌||◌, Option, List, [], ◌∷◌,
}
use verdict_risk.Py.Except.{Result, ◌>>◌, raise_if, value_error, ok}
use verdict_risk.Py.Float.{plus, Float, finite, is_finite, le, of_ratio, zero_float}
use verdict_risk.Py.Time.{Datetime}
use verdict_risk.Py.Format.{join, str_int}

abbrev pub risk_state_schema_version : ℤ
risk_state_schema_version = pos 1

-- `_ensure_finite`
unfoldable pub ensure_finite : Float → String → Result (Unit {0})
unfolding join is_finite
ensure_finite value field_name =
    raise_if (not (is_finite value)) (value_error (join (field_name ∷ " must be finite" ∷ [])))

pub record RiskContext : Type 0 where
  pub max_daily_drawdown_pct : Float
  pub max_weekly_drawdown_pct : Float
  pub max_correlated_exposure : Float
  pub min_expected_value : Float
  pub latency_budget_us : ℤ
  pub consecutive_loss_limit : ℤ
  pub consecutive_loss_window_minutes : Float

-- `RiskContext()`
abbrev pub default_context : RiskContext
default_context = record {
  max_daily_drawdown_pct = of_ratio plus 10 100;
  max_weekly_drawdown_pct = of_ratio plus 20 100;
  max_correlated_exposure = of_ratio plus 2500 1;
  min_expected_value = zero_float;
  latency_budget_us = pos 500;
  consecutive_loss_limit = pos 0;
  consecutive_loss_window_minutes = of_ratio plus 15 1;
}

-- `RiskContext.__post_init__`
unfoldable pub context_init : RiskContext → Result RiskContext
unfolding ensure_finite
context_init ctx = do
  ensure_finite ctx.max_daily_drawdown_pct "max_daily_drawdown_pct"
  ensure_finite ctx.max_weekly_drawdown_pct "max_weekly_drawdown_pct"
  ensure_finite ctx.max_correlated_exposure "max_correlated_exposure"
  ensure_finite ctx.min_expected_value "min_expected_value"
  ensure_finite ctx.consecutive_loss_window_minutes "consecutive_loss_window_minutes"
  ok ctx

pub record Position : Type 0 where
  pub ticker : String
  pub family : String
  pub cost_basis : Float
  pub current_value : Float
  pub is_resolved : Bool

-- `Position.__post_init__`
unfoldable pub position_init : Position → Result Position
unfolding ensure_finite
position_init p = do
  ensure_finite p.cost_basis "cost_basis"
  ensure_finite p.current_value "current_value"
  ok p

pub record RiskDecision : Type 0 where
  pub approved : Bool
  pub reason_code : String
  pub suggested_size : Float

-- `RiskDecision(approved=..., reason_code=..., suggested_size=...)`
unfoldable pub new_decision : Bool → String → Float → Result RiskDecision
unfolding ensure_finite
new_decision approved reason_code suggested_size = do
  ensure_finite suggested_size "suggested_size"
  ok (record { approved = approved; reason_code = reason_code; suggested_size = suggested_size })

-- A past trade. The model forbids NaN and infinities at construction only, so `pnl` is any float.
pub record TradeOutcome : Type 0 where
  pub timestamp : Datetime
  pub pnl : Float

pub record KillSwitchState : Type 0 where
  pub tripped : Bool
  pub reason : String
  pub tripped_at : Option Datetime

pub record TimedCircuitBreakerState : Type 0 where
  pub consecutive_loss_threshold : ℕ
  pub cooldown_hours : Float
  pub loss_streak : ℕ
  pub tripped : Bool
  pub tripped_at : Option Datetime

-- `TimedCircuitBreakerState.__post_init__`
unfoldable pub timed_state_init :
    ℤ → Float → ℤ → Bool → Option Datetime → Result TimedCircuitBreakerState
unfolding le
timed_state_init threshold cooldown streak tripped tripped_at = do
  raise_if (ltb_ℤ threshold (pos 1)) (value_error "consecutive_loss_threshold must be >= 1")
  raise_if (le cooldown (finite plus 0)) (value_error "cooldown_hours must be > 0")
  raise_if (ltb_ℤ streak (pos 0)) (value_error "loss_streak must be >= 0")
  ok (record {
    consecutive_loss_threshold = pos_part threshold;
    cooldown_hours = cooldown;
    loss_streak = pos_part streak;
    tripped = tripped;
    tripped_at = tripped_at;
  })

pub record ConsecutiveLossGateState : Type 0 where
  pub max_losses : ℕ
  pub window_trades : ℕ
  pub history : List Bool

-- `ConsecutiveLossGateState.__post_init__`
unfoldable pub loss_gate_state_init : ℤ → ℤ → List Bool → Result ConsecutiveLossGateState
loss_gate_state_init max_losses window_trades history = do
  raise_if (ltb_ℤ max_losses (pos 1)) (value_error "max_losses must be >= 1")
  raise_if (ltb_ℤ window_trades (pos 1)) (value_error "window_trades must be >= 1")
  raise_if (ltb_ℤ window_trades max_losses) (value_error "max_losses cannot exceed window_trades")
  raise_if (ltb_ℤ window_trades (pos (length history)))
      (value_error "history cannot exceed window_trades")
  ok (record {
    max_losses = pos_part max_losses;
    window_trades = pos_part window_trades;
    history = history;
  })

pub record RiskState : Type 0 where
  pub schema_version : ℤ
  pub context : RiskContext
  pub kill_switch : Option KillSwitchState
  pub timed_breaker : Option TimedCircuitBreakerState
  pub consecutive_loss_gate : Option ConsecutiveLossGateState

-- `RiskState.__post_init__`
unfoldable pub risk_state_init : RiskState → Result RiskState
unfolding join str_int
risk_state_init s = do
  raise_if
      (ltb_ℤ s.schema_version risk_state_schema_version
        || ltb_ℤ risk_state_schema_version s.schema_version)
      (value_error (
        join (
          "Unsupported risk state schema_version="
          ∷ str_int s.schema_version
          ∷ "; expected "
          ∷ str_int risk_state_schema_version
          ∷ [])))
  ok s
