-- ===== src/Engine/Authority/Session.antt =====
-- Sessions with one authority: what a desk does with it, in any order, and what it answers.
pub mod Kept
pub mod Gates
pub mod Quiet
pub mod Sound
pub mod Breaker
pub mod Passes
pub mod Approves
use verdict_risk.Prelude.{ℕ, Option, List, [], ◌∷◌, ◌++◌}
use verdict_risk.Py.Except.{Result}
use verdict_risk.Py.Number.{Number}
use verdict_risk.Py.Time.{Datetime}
use verdict_risk.State.{RiskContext, RiskDecision}
use verdict_risk.Engine.Chain.{Trade}
use verdict_risk.Engine.Authority.{
  RiskAuthority, evaluate_with_state, map_some, record_resolved_trade,
}
use verdict_risk.Gates.KillSwitch
use verdict_risk.Gates.TimedBreaker
use verdict_risk.Gates.LossGate

-- A trade is evaluated or has settled, or an operator works on one of the gates.
pub data Use : Type 0 where
  evaluating : RiskContext → Trade → ℕ → Use
  settling : Number → Option Datetime → Use
  tripping_switch : Option Datetime → Use
  resetting_switch : Use
  resetting_breaker : Use
  resetting_gate : Use

-- The authority after one use.
unfoldable pub step : RiskAuthority → Use → RiskAuthority
step a (evaluating ctx trade ns) = (evaluate_with_state a ctx trade ns).authority
step a (settling pnl at) = record_resolved_trade a pnl at
step a (tripping_switch at) = record a {
  kill_switch = map_some (λ s. KillSwitch.trip s at) a.kill_switch;
}
step a resetting_switch = record a { kill_switch = map_some KillSwitch.reset a.kill_switch }
step a resetting_breaker = record a { timed_breaker = map_some TimedBreaker.reset a.timed_breaker }
step a resetting_gate = record a {
  consecutive_loss_gate = map_some LossGate.reset a.consecutive_loss_gate;
}

-- The authority after a session.
unfoldable pub session : RiskAuthority → List Use → RiskAuthority
session a [] = a
session a (u ∷ uses) = session (step a u) uses

-- What the evaluations of a session answer, in order.
unfoldable pub session_answers : RiskAuthority → List Use → List (Result RiskDecision)
session_answers a [] = []
session_answers a (evaluating ctx trade ns ∷ uses) =
    (evaluate_with_state a ctx trade ns).answer
    ∷ session_answers (step a (evaluating ctx trade ns)) uses
session_answers a (u ∷ uses) = session_answers (step a u) uses

-- The calls of the callback along a session, in order.
unfoldable pub session_calls : RiskAuthority → List Use → List RiskDecision
session_calls a [] = []
session_calls a (evaluating ctx trade ns ∷ uses) =
    (evaluate_with_state a ctx trade ns).calls
    ++ session_calls (step a (evaluating ctx trade ns)) uses
session_calls a (u ∷ uses) = session_calls (step a u) uses
