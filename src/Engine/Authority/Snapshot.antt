-- ===== src/Engine/Authority/Snapshot.antt =====
-- A snapshot holds all that the stateful gates decide by.

use verdict_risk.State.{
  risk_state_schema_version, RiskContext, RiskDecision, TimedCircuitBreakerState,
  ConsecutiveLossGateState, RiskState, risk_state_init,
}
use verdict_risk.Py.Float.{le, zero_float}
use verdict_risk.Py.Except.{ok}
use verdict_risk.Prelude.{length, ◌≤◌, ◌≡◌, refl, false, Option, none, some, arith}
use verdict_risk.Gates.KillSwitch
use verdict_risk.Gates.TimedBreaker
use verdict_risk.Gates.TimedBreaker.{TimedCircuitBreaker}
use verdict_risk.Gates.LossGate
use verdict_risk.Gates.LossGate.{ConsecutiveLossGate}
use verdict_risk.Engine.Authority.{RiskAuthority, map_some, traverse, snapshot_state, from_state}

-- What the constructors of the gates and their operations give, and the snapshots ask for.
abbrev pub IsSoundBreaker : Option TimedCircuitBreaker → Type 0
IsSoundBreaker none = Unit
IsSoundBreaker (some b) =
    (1 ≤ b.consecutive_loss_threshold) × (le b.cooldown_hours zero_float ≡ false)

abbrev pub IsSoundGate : Option ConsecutiveLossGate → Type 0
IsSoundGate none = Unit
IsSoundGate (some g) =
    (1 ≤ g.max_losses) × (g.max_losses ≤ g.window_trades) × (length g.history ≤ g.window_trades)

-- A breaker that is saved and restored is the same breaker.
timed_breaker-restored :
    (b : Option TimedCircuitBreaker)
    → IsSoundBreaker b
    → (s : Option TimedCircuitBreakerState) × (traverse TimedBreaker.to_state b ≡ ok s)
      × (traverse TimedBreaker.from_state s ≡ ok b)
unfolding TimedBreaker.to_state TimedBreaker.from_state
timed_breaker-restored none h = (none, refl, refl)
timed_breaker-restored (some b) h = (
  some (record {
    consecutive_loss_threshold = b.consecutive_loss_threshold;
    cooldown_hours = b.cooldown_hours;
    loss_streak = b.loss_streak;
    tripped = b.tripped;
    tripped_at = b.tripped_at;
  }),
  ground arith,
  ground arith,
)

loss_gate-restored :
    (g : Option ConsecutiveLossGate)
    → IsSoundGate g
    → (s : Option ConsecutiveLossGateState) × (traverse LossGate.to_state g ≡ ok s)
      × (traverse LossGate.from_state s ≡ ok g)
unfolding LossGate.to_state LossGate.from_state
loss_gate-restored none h = (none, refl, refl)
loss_gate-restored (some g) h = (
  some (record { max_losses = g.max_losses; window_trades = g.window_trades; history = g.history }),
  ground arith,
  ground arith,
)

kill_switch-restored :
    (k : Option KillSwitch.KillSwitch)
    → map_some KillSwitch.from_state (map_some KillSwitch.to_state k) ≡ k
unfolding KillSwitch.from_state KillSwitch.to_state
kill_switch-restored none = refl
kill_switch-restored (some k) = refl

-- An authority with sound gates, or none, has a snapshot with the given context, and what is
-- restored from it is the authority with the new callback and no reason reported: every gate is as
-- it was.
pub from_state-snapshot_state :
    (a : RiskAuthority) (ctx : RiskContext) (on_trip : Option (RiskDecision → RiskDecision))
    → IsSoundBreaker a.timed_breaker
    → IsSoundGate a.consecutive_loss_gate
    → (s : RiskState) × (snapshot_state a ctx ≡ ok s)
      × (s.context ≡ ctx)
      × (from_state s on_trip ≡ ok (record a { on_trip = on_trip; last_trip_reason = none }))
unfolding snapshot_state from_state risk_state_init
from_state-snapshot_state a ctx on_trip h k =
    let (b, saved_b, back_b) = timed_breaker-restored a.timed_breaker h in
    let (g, saved_g, back_g) = loss_gate-restored a.consecutive_loss_gate k in
    (
      record {
        schema_version = risk_state_schema_version;
        context = ctx;
        kill_switch = map_some KillSwitch.to_state a.kill_switch;
        timed_breaker = b;
        consecutive_loss_gate = g;
      },
      rw (saved_b, saved_g),
      refl,
      rw (back_b, back_g, kill_switch-restored),
    )
