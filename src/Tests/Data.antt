-- ===== src/Tests/Data.antt =====
-- The desk, the trades and the times that the tests use.
use verdict_risk.Prelude.{◌^◌, ◌*◌, ℕ, pos, none, some, false, [], ◌∷◌}
use verdict_risk.Py.Float.{Float, finite, plus, minus}
use verdict_risk.Py.Time.{Datetime}
use verdict_risk.State.{RiskContext, Position, RiskDecision, TradeOutcome}
use verdict_risk.Gates.ClusterCap.{ClusterCapContext}
use verdict_risk.Gates.Pass.{approval}
use verdict_risk.Engine.Chain.{Trade}

abbrev pub dollars : ℕ → Float
dollars n = finite plus (n * 2 ^ 1074)

abbrev pub minus_dollars : ℕ → Float
minus_dollars n = finite minus (n * 2 ^ 1074)

abbrev pub half : Float
half = finite plus (2 ^ 1073)

abbrev pub quarter : Float
quarter = finite plus (2 ^ 1072)

-- The clock of a day, in minutes.
abbrev pub clock : ℕ → Datetime
clock minutes = record { ticks = minutes * 60_000_000; tzinfo = none }

abbrev pub desk : RiskContext
desk = record {
  max_daily_drawdown_pct = quarter;
  max_weekly_drawdown_pct = half;
  max_correlated_exposure = dollars 100;
  min_expected_value = half;
  latency_budget_us = pos 500;
  consecutive_loss_limit = pos 3;
  consecutive_loss_window_minutes = dollars 60;
}

abbrev pub held : Position
held = record {
  ticker = "RAIN";
  family = "weather";
  cost_basis = dollars 30;
  current_value = dollars 25;
  is_resolved = false;
}

abbrev pub early_loss : TradeOutcome
early_loss = record { timestamp = clock 700; pnl = minus_dollars 5 }

abbrev pub late_loss : TradeOutcome
late_loss = record { timestamp = clock 710; pnl = minus_dollars 3 }

abbrev pub cluster : ClusterCapContext
cluster = record {
  cluster_id = "coast";
  cluster_open_usd = dollars 50;
  proposed_cost = dollars 20;
  max_cluster_usd = dollars 80;
}

abbrev pub proposal : Trade
proposal = record {
  daily_realized_pnl = minus_dollars 8;
  equity = dollars 1000;
  target_family = "weather";
  proposed_cost = dollars 20;
  open_positions = held ∷ [];
  expected_value = dollars 1;
  trade_outcomes = some (late_loss ∷ early_loss ∷ []);
  current_time = some (clock 720);
  cluster_cap_ctx = some cluster;
}

abbrev pub fresh : RiskDecision
fresh = approval (dollars 20)
