-- ===== src/Engine/Authority.antt =====
-- `RiskAuthority`: the stateful gates in front of the chain, the trip callback, and snapshots.
pub mod Stateful
pub mod Halted
pub mod Passing
pub mod Session
pub mod Trips
pub mod Snapshot
use verdict_risk.Gates.Verdict.{Verdict}
use verdict_risk.Prelude.{
  if◌then◌else◌, ℕ, String, Bool, true, false, Option, none, some, List, [], ◌∷◌,
}
use verdict_risk.Py.Except.{Result, ◌>>=◌, ◌>>◌, ok, err}
use verdict_risk.Py.Number.{Number}
use verdict_risk.Py.Time.{Datetime}
use verdict_risk.State.{
  risk_state_schema_version, RiskContext, RiskDecision, new_decision, RiskState, risk_state_init,
}
use verdict_risk.Gates.KillSwitch
use verdict_risk.Gates.KillSwitch.{KillSwitch, check, to_state}
use verdict_risk.Gates.TimedBreaker
use verdict_risk.Gates.TimedBreaker.{TimedCircuitBreaker, record_trade}
use verdict_risk.Gates.LossGate
use verdict_risk.Gates.LossGate.{ConsecutiveLossGate}
use verdict_risk.Engine.Chain.{Trade, evaluate_stateless}
use text.Mathlib.Text.{◌==◌ as str_eq}

-- `on_trip` maps the decision that it is handed to what it leaves of it; an exception of the
-- callback is swallowed by the caller.
pub record RiskAuthority : Type 0 where
  pub kill_switch : Option KillSwitch
  pub timed_breaker : Option TimedCircuitBreaker
  pub consecutive_loss_gate : Option ConsecutiveLossGate
  pub on_trip : Option (RiskDecision → RiskDecision)
  pub last_trip_reason : Option String

-- `__init__`
unfoldable pub init :
    Option KillSwitch
    → Option TimedCircuitBreaker
    → Option ConsecutiveLossGate
    → Option (RiskDecision → RiskDecision)
    → RiskAuthority
init kill_switch timed_breaker consecutive_loss_gate on_trip = record {
  kill_switch = kill_switch;
  timed_breaker = timed_breaker;
  consecutive_loss_gate = consecutive_loss_gate;
  on_trip = on_trip;
  last_trip_reason = none;
}

-- What a call leaves: the authority, the decision or exception, and the decisions that were handed
-- to the callback.
pub record Evaluation : Type 0 where
  pub authority : RiskAuthority
  pub answer : Result RiskDecision
  pub calls : List RiskDecision

abbrev pub same_reason : String → Option String → Bool
same_reason reason none = false
same_reason reason (some last) = str_eq reason last

-- `_maybe_fire_trip`, and `return decision`
unfoldable pub maybe_fire_trip : RiskAuthority → RiskDecision → Evaluation
maybe_fire_trip authority decision = elim authority.on_trip [
  | none ↦ record { authority = authority; answer = ok decision; calls = [] }
  | some callback ↦
      if same_reason decision.reason_code authority.last_trip_reason
      then record { authority = authority; answer = ok decision; calls = [] }
      else record {
        authority = record authority { last_trip_reason = some decision.reason_code };
        answer = ok (callback decision);
        calls = decision ∷ [];
      }
]

-- The pure gates, with a decision of their own.
unfoldable pub delegate : RiskAuthority → RiskContext → Trade → ℕ → Evaluation
delegate authority ctx trade elapsed_ns = record {
  authority = authority;
  answer = evaluate_stateless ctx trade elapsed_ns;
  calls = [];
}

-- The third gate and what follows.
unfoldable pub pass_loss_gate : RiskAuthority → RiskContext → Trade → ℕ → RiskDecision → Evaluation
pass_loss_gate authority ctx trade elapsed_ns decision = elim authority.consecutive_loss_gate [
  | none ↦ delegate authority ctx trade elapsed_ns
  | some gate ↦
      let (decision', go) = LossGate.check gate decision in
      if go then delegate authority ctx trade elapsed_ns else maybe_fire_trip authority decision'
]

-- What follows the verdict of the breaker.
unfoldable pub after_timed_breaker : RiskAuthority → RiskContext → Trade → ℕ → Verdict → Evaluation
after_timed_breaker authority ctx trade elapsed_ns (err e) = record {
  authority = authority;
  answer = err e;
  calls = [];
}
after_timed_breaker authority ctx trade elapsed_ns (ok (decision, true)) =
    pass_loss_gate authority ctx trade elapsed_ns decision
after_timed_breaker authority ctx trade elapsed_ns (ok (decision, false)) =
    maybe_fire_trip authority decision

-- The second gate and what follows. Its check may reset the breaker.
unfoldable pub pass_timed_breaker :
    RiskAuthority → RiskContext → Trade → ℕ → RiskDecision → Evaluation
pass_timed_breaker authority ctx trade elapsed_ns decision = elim authority.timed_breaker [
  | none ↦ pass_loss_gate authority ctx trade elapsed_ns decision
  | some breaker ↦
      let (breaker', verdict) = TimedBreaker.check breaker decision trade.current_time in
      after_timed_breaker (record authority { timed_breaker = some breaker' }) ctx trade elapsed_ns
        verdict
]

-- The first gate and what follows.
unfoldable pub pass_kill_switch :
    RiskAuthority → RiskContext → Trade → ℕ → RiskDecision → Evaluation
pass_kill_switch authority ctx trade elapsed_ns decision = elim authority.kill_switch [
  | none ↦ pass_timed_breaker authority ctx trade elapsed_ns decision
  | some switch ↦
      let (decision', go) = KillSwitch.check switch decision in
      if go
      then pass_timed_breaker authority ctx trade elapsed_ns decision'
      else maybe_fire_trip authority decision'
]

unfoldable pub evaluate_with_state : RiskAuthority → RiskContext → Trade → ℕ → Evaluation
evaluate_with_state authority ctx trade elapsed_ns =
    elim (new_decision true "OK" trade.proposed_cost) [
      | err e ↦ record { authority = authority; answer = err e; calls = [] }
      | ok decision ↦ pass_kill_switch authority ctx trade elapsed_ns decision
    ]

abbrev pub map_some : {A B : Type 0} → (A → B) → Option A → Option B
map_some f none = none
map_some f (some a) = some (f a)

unfoldable pub record_resolved_trade : RiskAuthority → Number → Option Datetime → RiskAuthority
record_resolved_trade authority pnl at = record authority {
  timed_breaker = map_some (λ b. TimedBreaker.record_trade b pnl at) authority.timed_breaker;
  consecutive_loss_gate =
      map_some (λ g. LossGate.record_trade g pnl) authority.consecutive_loss_gate;
}

-- `f(x) if x is not None else None`, where `f` may raise
abbrev pub traverse : {A B : Type 0} → (A → Result B) → Option A → Result (Option B)
traverse f none = ok none
traverse f (some a) = f a >>= λ b. ok (some b)

unfoldable pub snapshot_state : RiskAuthority → RiskContext → Result RiskState
snapshot_state authority ctx = do
  timed_breaker ← traverse TimedBreaker.to_state authority.timed_breaker
  consecutive_loss_gate ← traverse LossGate.to_state authority.consecutive_loss_gate
  risk_state_init (record {
    schema_version = risk_state_schema_version;
    context = ctx;
    kill_switch = map_some KillSwitch.to_state authority.kill_switch;
    timed_breaker = timed_breaker;
    consecutive_loss_gate = consecutive_loss_gate;
  })

unfoldable pub from_state : RiskState → Option (RiskDecision → RiskDecision) → Result RiskAuthority
unfolding init
from_state state on_trip = do
  timed_breaker ← traverse TimedBreaker.from_state state.timed_breaker
  consecutive_loss_gate ← traverse LossGate.from_state state.consecutive_loss_gate
  ok (
      init (map_some KillSwitch.from_state state.kill_switch) timed_breaker consecutive_loss_gate
        on_trip)
