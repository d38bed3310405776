-- ===== src/Gates/Verdict.antt =====
-- What the gates share. A gate writes a rejection into the decision that it is handed and returns
-- whether the trade may go on; it may raise.

use verdict_risk.Prelude.{
  if◌then◌else◌, is_some, ◌-ℤ◌, String, ◌≡◌, ◌↔◌, Bool, true, false, ◌&&◌, ◌||◌, arith,
}
use verdict_risk.Py.Except.{Result, ok, err}
use verdict_risk.Py.Float.{Float, is_nan, is_inf}
use verdict_risk.Py.Time.{Datetime, utcoffset, instant, subtract}
use verdict_risk.State.{RiskDecision}

abbrev pub Verdict : Type 0
Verdict = Result (RiskDecision × Bool)

-- `decision.approved = False; decision.reason_code = reason; return False`
abbrev pub rejected : RiskDecision → String → RiskDecision × Bool
rejected decision reason = (record decision { approved = false; reason_code = reason }, false)

abbrev pub reject : RiskDecision → String → Verdict
reject decision reason = ok (rejected decision reason)

-- `return True`
abbrev pub pass : RiskDecision → Verdict
pass decision = ok (decision, true)

pub data TimezoneMode : Type 0 where
  aware naive : TimezoneMode

-- `_is_aware`: `utcoffset()` is None when there is no `tzinfo`
unfoldable pub is_aware : Datetime → Bool
is_aware dt = is_some dt.tzinfo && is_some (utcoffset dt)

-- `_timezone_mode`
unfoldable pub timezone_mode : Datetime → TimezoneMode
unfolding is_aware
timezone_mode dt = if is_aware dt then aware else naive

abbrev pub same_mode : TimezoneMode → TimezoneMode → Bool
same_mode aware aware = true
same_mode naive naive = true
same_mode _ _ = false

-- `math.isnan(x) or math.isinf(x)`
abbrev pub is_bad : Float → Bool
is_bad x = is_nan x || is_inf x

-- The gate raises nothing; it lets the trade through and leaves the decision alone, or it rejects
-- and keeps the size.
abbrev pub Answers : RiskDecision → Verdict → Type 0
Answers decision (err e) = ⊥
Answers decision (ok (after, true)) = after ≡ decision
Answers decision (ok (after, false)) =
    (after.approved ≡ false) × (after.suggested_size ≡ decision.suggested_size)

-- As `Answers`, but the gate may raise.
abbrev pub Keeps : RiskDecision → Verdict → Type 0
Keeps d (err e) = Unit
Keeps d (ok answer) = Answers d (ok answer)

pub Keeps-of_Answers : (d : RiskDecision) (v : Verdict) → Answers d v → Keeps d v
Keeps-of_Answers d (err e) h = tt
Keeps-of_Answers d (ok answer) h = h

-- Datetimes of one mode are subtracted without an exception.
pub subtract_same_mode :
    (a b : Datetime)
    → timezone_mode a ≡ timezone_mode b
    → subtract a b ≡ ok (instant a -ℤ instant b)
unfolding subtract timezone_mode
subtract_same_mode a b h = ground arith

pub same_mode_iff : (a b : TimezoneMode) → (same_mode a b ≡ true) ↔ (a ≡ b)
same_mode_iff a b = ground arith
