-- ===== src/Engine/Authority/Session/Passes.antt =====
-- What the gates of an authority let through, by what was done in the session.

use verdict_risk.Gates.Verdict.{pass}
use verdict_risk.Engine.Authority.Session.Breaker.{Runs, Holds}
use verdict_risk.Engine.Authority.Session.Gates.{switch_events, settled}
use verdict_risk.Engine.Authority.Session.{Use}
use verdict_risk.Engine.Authority.Stateful.{KillSwitchPasses, TimedBreakerPasses}
use verdict_risk.State.{RiskDecision}
use verdict_risk.Py.Time.{Datetime}
use verdict_risk.Py.Except.{ok}
use verdict_risk.Prelude.{
  Bool-cases, Option-cases, length, ℤ, ◌≤◌, ◌<◌, String, ◌≡◌, ◌↔◌, ◌⊎◌, inl, inr, true, false,
  Option, none, some, List, [], arith,
}
use verdict_risk.Gates.KillSwitch
use verdict_risk.Gates.KillSwitch.Halts
use verdict_risk.Gates.KillSwitch.Halts.{run, standing, check-run}
use verdict_risk.Gates.TimedBreaker
use verdict_risk.Gates.TimedBreaker.{TimedCircuitBreaker, reset, check_tripped, check}
use verdict_risk.Gates.TimedBreaker.Passes
use verdict_risk.Gates.TimedBreaker.Passes.{CooledDown, check-passes_tripped, over-passes}
use verdict_risk.Gates.LossGate
use verdict_risk.Gates.LossGate.{ConsecutiveLossGate, last_trades, count_true}
use verdict_risk.Gates.LossGate.Window.{losses_of}

-- No trip of the kill switch stands since its last reset.
abbrev pub NotHalted : List Use → Type 0
NotHalted uses = Halts.standing none (switch_events uses) ≡ none

-- Since the last reset of the gate, fewer results were recorded than the window, or at most
-- max_losses of the last window_trades of them are losses.
abbrev pub FewLosses : ConsecutiveLossGate → List Use → Type 0
FewLosses g uses =
    let all = losses_of (settled [] uses) in
    (length all < g.window_trades) ⊎ (count_true (last_trades g.window_trades all) ≤ g.max_losses)

-- The breaker has the limits of the new one, and is below the threshold, or at it and its cooldown
-- is over.
abbrev pub Rested : TimedCircuitBreaker → Option TimedCircuitBreaker → Option Datetime → Type 0
Rested b0 none now = ⊥
Rested b0 (some b) now =
    (b.cooldown_hours ≡ b0.cooldown_hours)
    × ((b.loss_streak < b0.consecutive_loss_threshold)
        ⊎ ((b.loss_streak ≡ b0.consecutive_loss_threshold) × CooledDown b now))

pub switch-NotHalted_iff :
    (reason : String) (uses : List Use) (d : RiskDecision)
    → KillSwitchPasses (some (Halts.run (KillSwitch.init reason) (switch_events uses)))
      ↔ NotHalted uses
unfolding KillSwitch.check
switch-NotHalted_iff reason uses d =
    elim (Option-cases (Halts.standing none (switch_events uses))) [
      | inl clear ↦ ground (arith, check-run reason (switch_events uses) d)
      | inr (at, stands) ↦ ground (arith, check-run reason (switch_events uses) d)
    ]

clear-Rested :
    (b0 b : TimedCircuitBreaker) (now : Option Datetime)
    → Runs b0 b
    → b.tripped ≡ false
    → Rested b0 (some b) now
clear-Rested b0 b now h clear = (h.2, inl (ground arith))

over-Rested :
    (b0 b : TimedCircuitBreaker) (now : Option Datetime)
    → Runs b0 b
    → b.tripped ≡ true
    → CooledDown b now
    → Rested b0 (some b) now
over-Rested b0 b now h tripped over = (h.2, inr (ground arith, over))

pub breaker-Rested :
    (b0 : TimedCircuitBreaker) (o : Option TimedCircuitBreaker) (d : RiskDecision)
    (now : Option Datetime)
    → Holds b0 o
    → TimedBreakerPasses o d now
    → Rested b0 o now
breaker-Rested b0 none d now h p = absurd h
breaker-Rested b0 (some b) d now h p = elim (Bool-cases b.tripped) [
  | inl tripped ↦ over-Rested b0 b now h tripped (Passes.check-passes_tripped b d now tripped p)
  | inr clear ↦ clear-Rested b0 b now h clear
]

below-passes :
    (b0 b : TimedCircuitBreaker) (d : RiskDecision) (now : Option Datetime)
    → Runs b0 b
    → b.loss_streak < b0.consecutive_loss_threshold
    → (TimedBreaker.check b d now).1 ≡ pass d
unfolding TimedBreaker.check TimedBreaker.check_tripped
below-passes b0 b d now h below = ground arith

tripped-at_threshold :
    (b0 b : TimedCircuitBreaker)
    → Runs b0 b
    → b.loss_streak ≡ b0.consecutive_loss_threshold
    → b.tripped ≡ true
tripped-at_threshold b0 b h e = ground arith

pub Rested-passes :
    (b0 : TimedCircuitBreaker) (o : Option TimedCircuitBreaker) (d : RiskDecision)
    (now : Option Datetime)
    → Holds b0 o
    → Rested b0 o now
    → TimedBreakerPasses o d now
Rested-passes b0 none d now h r = absurd h
Rested-passes b0 (some b) d now h (c, inl below) = below-passes b0 b d now h below
Rested-passes b0 (some b) d now h (c, inr (full, over)) =
    Passes.over-passes b d now (tripped-at_threshold b0 b h full) over

pub init-reset :
    (max_losses window : ℤ) (g : ConsecutiveLossGate)
    → LossGate.init max_losses window ≡ ok g
    → LossGate.reset g ≡ g
unfolding LossGate.init LossGate.reset
init-reset max_losses window g e = ground arith
