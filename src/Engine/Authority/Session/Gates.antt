-- ===== src/Engine/Authority/Session/Gates.antt =====
-- What a session leaves of each gate, by what is done with that gate.
use verdict_risk.Prelude.{◌≡◌, refl, ap, ◌∙◌, ◌++◌, some, List, [], ◌∷◌}
use verdict_risk.Py.Number.{Number}
use verdict_risk.Engine.Authority.{RiskAuthority, record_resolved_trade}
use verdict_risk.Engine.Authority.Session.Kept.{evaluate_with_state-Kept}
use verdict_risk.Engine.Authority.Session.{
  Use, step, session, evaluating, settling, tripping_switch, resetting_switch, resetting_breaker,
  resetting_gate,
}
use verdict_risk.Gates.KillSwitch
use verdict_risk.Gates.KillSwitch.Halts
use verdict_risk.Gates.KillSwitch.Halts.{tripping, resetting}
use verdict_risk.Gates.LossGate
use verdict_risk.Gates.LossGate.{ConsecutiveLossGate}
use verdict_risk.Gates.LossGate.Window

-- The trips and resets of the switch in a session.
abbrev pub switch_events : List Use → List Halts.Event
switch_events [] = []
switch_events (tripping_switch at ∷ uses) = tripping at ∷ switch_events uses
switch_events (resetting_switch ∷ uses) = resetting ∷ switch_events uses
switch_events (u ∷ uses) = switch_events uses

pub session-kill_switch :
    (a : RiskAuthority) (uses : List Use) (s : KillSwitch.KillSwitch)
    → a.kill_switch ≡ some s
    → (session a uses).kill_switch ≡ some (Halts.run s (switch_events uses))
unfolding session step record_resolved_trade Halts.run
session-kill_switch a [] s h = h
session-kill_switch a (evaluating ctx trade ns ∷ uses) s h =
    session-kill_switch (step a (evaluating ctx trade ns)) uses s
      ((evaluate_with_state-Kept a ctx trade ns).0 ∙ h)
session-kill_switch a (settling pnl at ∷ uses) s h =
    session-kill_switch (step a (settling pnl at)) uses s h
session-kill_switch a (tripping_switch at ∷ uses) s h =
    session-kill_switch (step a (tripping_switch at)) uses (KillSwitch.trip s at) (rw h refl)
session-kill_switch a (resetting_switch ∷ uses) s h =
    session-kill_switch (step a resetting_switch) uses (KillSwitch.reset s) (rw h refl)
session-kill_switch a (resetting_breaker ∷ uses) s h =
    session-kill_switch (step a resetting_breaker) uses s h
session-kill_switch a (resetting_gate ∷ uses) s h =
    session-kill_switch (step a resetting_gate) uses s h

-- The results that have settled since the last reset of the loss gate, after those of `seen`.
abbrev pub settled : List Number → List Use → List Number
settled seen [] = seen
settled seen (settling pnl at ∷ uses) = settled (seen ++ (pnl ∷ [])) uses
settled seen (resetting_gate ∷ uses) = settled [] uses
settled seen (u ∷ uses) = settled seen uses

pub session-loss_gate :
    (a : RiskAuthority) (uses : List Use) (g : ConsecutiveLossGate) (seen : List Number)
    → LossGate.reset g ≡ g
    → a.consecutive_loss_gate ≡ some (Window.record_all g seen)
    → (session a uses).consecutive_loss_gate ≡ some (Window.record_all g (settled seen uses))
unfolding session step record_resolved_trade
session-loss_gate a [] g seen e h = h
session-loss_gate a (evaluating ctx trade ns ∷ uses) g seen e h =
    session-loss_gate (step a (evaluating ctx trade ns)) uses g seen e
      ((evaluate_with_state-Kept a ctx trade ns).1 ∙ h)
session-loss_gate a (settling pnl at ∷ uses) g seen e h =
    session-loss_gate (step a (settling pnl at)) uses g (seen ++ (pnl ∷ [])) e
      (rw (h, Window.record_all-append g seen pnl) refl)
session-loss_gate a (tripping_switch at ∷ uses) g seen e h =
    session-loss_gate (step a (tripping_switch at)) uses g seen e h
session-loss_gate a (resetting_switch ∷ uses) g seen e h =
    session-loss_gate (step a resetting_switch) uses g seen e h
session-loss_gate a (resetting_breaker ∷ uses) g seen e h =
    session-loss_gate (step a resetting_breaker) uses g seen e h
session-loss_gate a (resetting_gate ∷ uses) g seen e h =
    session-loss_gate (step a resetting_gate) uses g [] e
      (rw h (ap some (Window.reset-record_all g seen e)))

pub session-on_trip : (a : RiskAuthority) (uses : List Use) → (session a uses).on_trip ≡ a.on_trip
unfolding session step record_resolved_trade
session-on_trip a [] = refl
session-on_trip a (evaluating ctx trade ns ∷ uses) =
    session-on_trip (step a (evaluating ctx trade ns)) uses
    ∙ (evaluate_with_state-Kept a ctx trade ns).2
session-on_trip a (settling pnl at ∷ uses) = session-on_trip (step a (settling pnl at)) uses
session-on_trip a (tripping_switch at ∷ uses) = session-on_trip (step a (tripping_switch at)) uses
session-on_trip a (resetting_switch ∷ uses) = session-on_trip (step a resetting_switch) uses
session-on_trip a (resetting_breaker ∷ uses) = session-on_trip (step a resetting_breaker) uses
session-on_trip a (resetting_gate ∷ uses) = session-on_trip (step a resetting_gate) uses
