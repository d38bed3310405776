-- ===== src/State/Json/Restart.antt =====
-- A restart from a snapshot in the middle of a session.

use verdict_risk.Engine.Authority.Session.Sound.{IsSound, session-IsSound}
use verdict_risk.Engine.Authority.Session.Quiet.{bare, Quiet, session-bare, session_answers-bare}
use verdict_risk.Engine.Authority.Session.Gates.{session-on_trip}
use verdict_risk.Engine.Authority.Session.{Use, session, session_answers}
use verdict_risk.State.{RiskContext, RiskDecision, RiskState}
use verdict_risk.Py.Except.{◌>>=◌, ok}
use verdict_risk.Prelude.{◌≡◌, sym, ◌∙◌, subst, Option, none, List}
use verdict_risk.State.Json.{Library, state_to_json, state_from_json}
use verdict_risk.State.Json.Restore.{Writes, from_state-state_from_json}
use verdict_risk.Engine.Authority.{RiskAuthority, snapshot_state, from_state}

-- At any moment of a session of an authority that began with sound gates, or none: if the codec
-- writes the snapshot as an object with its five keys and decodes it to the snapshot, and neither
-- callback changes decisions, then the authority is saved as JSON and restored, and from there on
-- it answers as the one that was never stopped, and its gates end the same.
pub session_answers-restart :
    (library : Library) (a : RiskAuthority) (before after : List Use) (ctx : RiskContext)
    (on_trip : Option (RiskDecision → RiskDecision))
    → IsSound a
    → Quiet a.on_trip
    → Quiet on_trip
    → ((s : RiskState) → snapshot_state (session a before) ctx ≡ ok s → Writes library s)
    → (restored : RiskAuthority) × ((snapshot_state (session a before) ctx >>= λ s.
          state_from_json library (state_to_json library s) >>= λ read. from_state read on_trip)
        ≡ ok restored)
      × (session_answers restored after ≡ session_answers (session a before) after)
      × (bare (session restored after) ≡ bare (session (session a before) after))
session_answers-restart library a before after ctx on_trip sound q q' writes =
    let stopped = session a before in
    let restored = record stopped { on_trip = on_trip; last_trip_reason = none } in
    let (breaker, gate) = session-IsSound a before sound in
    let quiet = subst Quiet (sym (session-on_trip a before)) q in
    (
      restored,
      from_state-state_from_json library stopped ctx on_trip breaker gate writes,
      session_answers-bare restored after q' ∙ sym (session_answers-bare stopped after quiet),
      session-bare restored after q' ∙ sym (session-bare stopped after quiet),
    )
