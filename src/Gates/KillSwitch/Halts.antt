-- ===== src/Gates/KillSwitch/Halts.antt =====
-- A kill switch blocks every trade from a trip until the next reset.

use verdict_risk.Gates.Verdict.{rejected}
use verdict_risk.State.{RiskDecision}
use verdict_risk.Py.Time.{Datetime}
use verdict_risk.Prelude.{
  String, ◌≡◌, refl, subst, Bool, true, false, Option, none, some, List, [], ◌∷◌, arith,
}
use verdict_risk.Gates.KillSwitch.{KillSwitch, init, trip, reset, check, to_state, from_state}

-- What a desk does with the switch.
pub data Event : Type 0 where
  tripping : Option Datetime → Event
  resetting : Event

unfoldable pub run : KillSwitch → List Event → KillSwitch
unfolding trip reset
run switch [] = switch
run switch (tripping at ∷ events) = run (trip switch at) events
run switch (resetting ∷ events) = run (reset switch) events

-- Whether a trip stands that no reset has followed, and when the first such was.
abbrev pub standing : Option (Option Datetime) → List Event → Option (Option Datetime)
standing first [] = first
standing none (tripping at ∷ events) = standing (some at) events
standing (some t) (tripping at ∷ events) = standing (some t) events
standing first (resetting ∷ events) = standing none events

abbrev pub Shows : KillSwitch → String → Option (Option Datetime) → Type 0
Shows switch reason none =
    (switch.tripped ≡ false) × (switch.tripped_at ≡ none) × (switch.reason ≡ reason)
Shows switch reason (some at) =
    (switch.tripped ≡ true) × (switch.tripped_at ≡ at) × (switch.reason ≡ reason)

run-Shows :
    (switch : KillSwitch) (reason : String) (first : Option (Option Datetime)) (events : List Event)
    → Shows switch reason first
    → Shows (run switch events) reason (standing first events)
unfolding run
run-Shows switch reason first [] h = h
run-Shows switch reason none (tripping at ∷ events) h =
    run-Shows (trip switch at) reason (some at) events (ground arith)
run-Shows switch reason (some t) (tripping at ∷ events) h =
    run-Shows (trip switch at) reason (some t) events (ground arith)
run-Shows switch reason none (resetting ∷ events) h =
    run-Shows (reset switch) reason none events (ground arith)
run-Shows switch reason (some t) (resetting ∷ events) h =
    run-Shows (reset switch) reason none events (ground arith)

abbrev pub answer : Option (Option Datetime) → String → RiskDecision → RiskDecision × Bool
answer none reason d = (d, true)
answer (some at) reason d = rejected d reason

Shows-check :
    (switch : KillSwitch) (reason : String) (first : Option (Option Datetime)) (d : RiskDecision)
    → Shows switch reason first
    → check switch d ≡ answer first reason d
unfolding check
Shows-check switch reason none d h = ground arith
Shows-check switch reason (some at) d h = ground arith

-- After any trips and resets of a new switch: if no trip stands since the last reset, the switch
-- lets every decision through unchanged; else it rejects every decision with its reason and keeps
-- the size.
pub check-run :
    (reason : String) (events : List Event) (d : RiskDecision)
    → check (run (init reason) events) d ≡ answer (standing none events) reason d
unfolding init
check-run reason events d =
    Shows-check (run (init reason) events) reason (standing none events) d
      (run-Shows (init reason) reason none events (refl, refl, refl))

-- If a trip stands since the last reset, the switch holds the time of the first such trip, also
-- through later trips.
pub tripped_at-run :
    (reason : String) (events : List Event) (at : Option Datetime)
    → standing none events ≡ some at
    → (run (init reason) events).tripped_at ≡ at
unfolding init
tripped_at-run reason events at e =
    let shows = run-Shows (init reason) reason none events (refl, refl, refl) in
    (subst (Shows (run (init reason) events) reason) e shows).1

-- A switch that is saved and restored is the same switch.
pub from_state-to_state : (switch : KillSwitch) → from_state (to_state switch) ≡ switch
unfolding from_state to_state
from_state-to_state switch = refl
