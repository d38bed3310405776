-- ===== src/Tests/Sessions.antt =====
-- Sessions with an authority, and the theorems about them at concrete inputs.
use verdict_risk.Prelude.{◌-ℤ◌, pos, ◌≡◌, refl, ◌↔◌, true, false, none, some, List, [], ◌∷◌, arith}
use verdict_risk.Py.Except.{ok}
use verdict_risk.Py.Number.{float}
use verdict_risk.Py.Float.{is_finite, le, magnitude}
use verdict_risk.Py.Time.{instant, timedelta_hours}
use verdict_risk.State.{RiskDecision}
use verdict_risk.Gates.Verdict.{timezone_mode}
use verdict_risk.Gates.TimedBreaker
use verdict_risk.Gates.TimedBreaker.{TimedCircuitBreaker}
use verdict_risk.Gates.LossGate
use verdict_risk.Gates.LossGate.{ConsecutiveLossGate}
use verdict_risk.Engine.Chain.{evaluate_stateless}
use verdict_risk.Engine.Authority
use verdict_risk.Engine.Authority.{RiskAuthority, init, evaluate_with_state}
use verdict_risk.Engine.Authority.Stateful.{KeepsRejections, LossGatePasses}
use verdict_risk.Engine.Authority.Passing.{evaluate_with_state_recovers}
use verdict_risk.Engine.Authority.Session.{
  Use, session, evaluating, settling, tripping_switch, resetting_switch,
}
use verdict_risk.Engine.Authority.Session.Passes.{NotHalted, FewLosses, Rested}
use verdict_risk.Engine.Authority.Session.Approves.{guarded, session_approves_iff}
use verdict_risk.Tests.Data.{dollars, minus_dollars, half, clock, desk, proposal, fresh}

-- Two losses trip it for half an hour.
abbrev two_strikes : TimedCircuitBreaker
two_strikes = record {
  consecutive_loss_threshold = 2;
  cooldown_hours = half;
  loss_streak = 0;
  tripped = false;
  tripped_at = none;
}

-- At most one loss among the last two trades.
abbrev last_two : ConsecutiveLossGate
last_two = record { max_losses = 1; window_trades = 2; history = [] }

-- A callback that rejects what it is handed once more.
abbrev insist : RiskDecision → RiskDecision
insist d = record d { approved = false }

-- Halted and released, a loss, an evaluation, a gain and another loss.
abbrev morning : List Use
morning =
    tripping_switch (some (clock 600))
    ∷ resetting_switch
    ∷ settling (float (minus_dollars 5)) (some (clock 700))
    ∷ evaluating desk proposal 400_000
    ∷ settling (float (dollars 4)) (some (clock 705))
    ∷ settling (float (minus_dollars 3)) (some (clock 710))
    ∷ []

insist-KeepsRejections : KeepsRejections (guarded "HALT" two_strikes last_two (some insist))
unfolding Authority.init
insist-KeepsRejections callback d e h = ground arith

session_approves_iff_example :
    let a = session (guarded "HALT" two_strikes last_two (some insist)) morning in
    (((evaluate_with_state a desk proposal 400_000).answer ≡ ok fresh) × (fresh.approved ≡ true))
    ↔ (NotHalted morning
        × Rested two_strikes a.timed_breaker (some (clock 720))
        × FewLosses last_two morning
        × (evaluate_stateless desk proposal 400_000 ≡ ok fresh)
        × (fresh.approved ≡ true))
unfolding TimedBreaker.init LossGate.init le
session_approves_iff_example =
    session_approves_iff "HALT" (pos 2) (pos 1) (pos 2) half two_strikes last_two (some insist)
      morning desk proposal 400_000 fresh refl refl insist-KeepsRejections

-- Tripped at 11:30, so that its cooldown is over at noon.
abbrev struck : TimedCircuitBreaker
struck = record two_strikes { loss_streak = 2; tripped = true; tripped_at = some (clock 690) }

abbrev resting : RiskAuthority
resting = record {
  kill_switch = none;
  timed_breaker = some struck;
  consecutive_loss_gate = some last_two;
  on_trip = some insist;
  last_trip_reason = none;
}

last_two-passes : (d : RiskDecision) → LossGatePasses (some last_two) d
unfolding LossGate.check
last_two-passes d = refl

evaluate_with_state_recovers_example :
    let first = evaluate_with_state resting desk proposal 400_000 in
    let next = evaluate_with_state first.authority desk proposal 900_000 in
    (first.answer ≡ evaluate_stateless desk proposal 400_000)
    × (next.answer ≡ evaluate_stateless desk proposal 900_000)
    × (first.calls ≡ [])
    × (next.calls ≡ [])
unfolding timezone_mode timedelta_hours magnitude instant ◌-ℤ◌ is_finite
evaluate_with_state_recovers_example =
    evaluate_with_state_recovers resting struck desk desk proposal proposal 400_000 900_000 refl
      refl (clock 690, clock 720, pos 1_800_000_000, refl, refl, refl, refl, omega arith) tt
      last_two-passes refl refl
