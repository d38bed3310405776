-- ===== src/Gates/KillSwitch.antt =====
-- `KillSwitch`: the manual override.
pub mod Halts
use verdict_risk.Prelude.{if◌then◌else◌, String, Bool, true, false, not, Option, none}
use verdict_risk.Py.Time.{Datetime}
use verdict_risk.State.{RiskDecision, KillSwitchState}
use verdict_risk.Gates.Verdict.{rejected}

pub record KillSwitch : Type 0 where
  pub reason : String
  pub tripped : Bool
  pub tripped_at : Option Datetime

-- `__init__`
unfoldable pub init : String → KillSwitch
init reason = record { reason = reason; tripped = false; tripped_at = none }

unfoldable pub trip : KillSwitch → Option Datetime → KillSwitch
trip switch at =
    if not switch.tripped then record switch { tripped = true; tripped_at = at } else switch

unfoldable pub reset : KillSwitch → KillSwitch
reset switch = record switch { tripped = false; tripped_at = none }

unfoldable pub check : KillSwitch → RiskDecision → RiskDecision × Bool
check switch decision = if switch.tripped then rejected decision switch.reason else (decision, true)

unfoldable pub to_state : KillSwitch → KillSwitchState
to_state switch = record {
  tripped = switch.tripped;
  reason = switch.reason;
  tripped_at = switch.tripped_at;
}

unfoldable pub from_state : KillSwitchState → KillSwitch
unfolding init
from_state state = record (init state.reason) {
  tripped = state.tripped;
  tripped_at = state.tripped_at;
}
