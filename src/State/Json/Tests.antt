-- ===== src/State/Json/Tests.antt =====
-- Snapshots that are written and restored, at concrete inputs.
use verdict_risk.Prelude.{
  if◌then◌else◌, pos, ◌≡◌, refl, subst, ◌↔◌, true, false, none, some, List, [], ◌∷◌, arith,
}
use verdict_risk.Py.Except.{◌>>=◌, value_error, err, ok}
use verdict_risk.State.{RiskState, risk_state_init}
use verdict_risk.Receipts.{Fields, whole, null, mapping, scalar, no_fields, field}
use verdict_risk.Engine.Authority.{
  RiskAuthority, init, record_resolved_trade, snapshot_state, from_state,
}
use verdict_risk.Py.Except.Ensures.{ok_injective}
use verdict_risk.State.Json.{Codec, Library, state_to_json, state_from_json}
use verdict_risk.State.Json.Restore.{
  IsSnapshot, state_from_json_iff, Writes, from_state-state_from_json,
}
use verdict_risk.State.Json.Restart.{session_answers-restart}
use verdict_risk.Engine.Authority.Session.{
  Use, step, session, session_answers, evaluating, settling, tripping_switch, resetting_switch,
}
use verdict_risk.Engine.Authority.Session.Quiet.{bare}
use verdict_risk.Gates.KillSwitch
use verdict_risk.Gates.TimedBreaker
use verdict_risk.Py.Number.{is_finite_number, float}
use verdict_risk.Py.Float.{is_nan, is_inf, lt, le}
use verdict_risk.Tests.Data.{minus_dollars, half, clock, desk, proposal, fresh}
use text.Mathlib.Text.{◌==◌ as str_eq}

-- A codec that knows one text.
abbrev codec_of : {A : Type 0} → A → Codec A
codec_of a = record {
  encode = λ x. "saved";
  decode = λ payload. if str_eq payload "saved" then ok a else err (value_error "malformed");
}

abbrev saved : RiskState
saved = record {
  schema_version = pos 1;
  context = desk;
  kill_switch = none;
  timed_breaker = none;
  consecutive_loss_gate = none;
}

abbrev object : Fields
object = field "schema_version" (scalar (whole (pos 1))) (
    field "context" (mapping no_fields) (
      field "kill_switch" (scalar null) (
        field "timed_breaker" (scalar null)
          (field "consecutive_loss_gate" (scalar null) no_fields))))

abbrev library_of : RiskState → Library
library_of state = record {
  raw = codec_of (mapping object);
  context = codec_of desk;
  decision = codec_of fresh;
  state = codec_of state;
  show_exception = λ e. "malformed";
  show_value = λ v. "value";
  show_keys = λ ks. "keys";
}

abbrev library : Library
library = library_of saved

state_from_json_iff_example : (state_from_json library "saved" ≡ ok saved) ↔ (
    (fields : Fields) × (library.raw.decode "saved" ≡ ok (mapping fields))
    × IsSnapshot fields
    × (library.state.decode (library.raw.encode (mapping fields)) ≡ ok saved))
state_from_json_iff_example = state_from_json_iff library "saved" saved

abbrev idle : RiskAuthority
idle = init none none none none

idle_written : (s : RiskState) → snapshot_state idle desk ≡ ok s → Writes library s
unfolding snapshot_state risk_state_init init
idle_written s h = subst (Writes library) (ok_injective saved s h) (object, refl, refl, refl, refl)

from_state-state_from_json_example :
    (snapshot_state idle desk >>= λ s.
    state_from_json library (state_to_json library s) >>= λ restored. from_state restored none)
    ≡ ok (record idle { on_trip = none; last_trip_reason = none })
unfolding init
from_state-state_from_json_example =
    from_state-state_from_json library idle desk none tt tt idle_written

-- Halted, and one loss of two.
abbrev desk_at_noon : RiskAuthority
desk_at_noon = record {
  kill_switch = some (record { reason = "HALT"; tripped = false; tripped_at = none });
  timed_breaker = some (record {
    consecutive_loss_threshold = 2;
    cooldown_hours = half;
    loss_streak = 0;
    tripped = false;
    tripped_at = none;
  });
  consecutive_loss_gate = none;
  on_trip = none;
  last_trip_reason = none;
}

abbrev before_restart : List Use
before_restart =
    tripping_switch (some (clock 700)) ∷ settling (float (minus_dollars 5)) (some (clock 710)) ∷ []

abbrev after_restart : List Use
after_restart =
    evaluating desk proposal 400_000
    ∷ settling (float (minus_dollars 2)) (some (clock 720))
    ∷ resetting_switch
    ∷ evaluating desk proposal 400_000
    ∷ []

abbrev state_at_restart : RiskState
state_at_restart = record saved {
  kill_switch = some (record { reason = "HALT"; tripped = true; tripped_at = some (clock 700) });
  timed_breaker = some (record {
    consecutive_loss_threshold = 2;
    cooldown_hours = half;
    loss_streak = 1;
    tripped = false;
    tripped_at = none;
  });
}

stopped_written :
    (s : RiskState)
    → snapshot_state (session desk_at_noon before_restart) desk ≡ ok s
    → Writes (library_of state_at_restart) s
unfolding snapshot_state risk_state_init session step record_resolved_trade KillSwitch.trip
    TimedBreaker.record_trade TimedBreaker.record_loss is_finite_number is_nan is_inf lt
    KillSwitch.to_state TimedBreaker.to_state le
stopped_written s h =
    subst (Writes (library_of state_at_restart)) (ok_injective state_at_restart s h)
      (object, refl, refl, refl, refl)

session_answers-restart_example :
    (restored : RiskAuthority) × ((snapshot_state (session desk_at_noon before_restart) desk
        >>= λ s.
            state_from_json
              (library_of state_at_restart)
              (state_to_json (library_of state_at_restart) s)
            >>= λ read. from_state read none)
      ≡ ok restored)
    × (session_answers restored after_restart
        ≡ session_answers (session desk_at_noon before_restart) after_restart)
    × (bare (session restored after_restart)
        ≡ bare (session (session desk_at_noon before_restart) after_restart))
unfolding le
session_answers-restart_example =
    session_answers-restart (library_of state_at_restart) desk_at_noon before_restart after_restart
      desk none ((omega arith, refl), tt) (λ callback d h. absurd (ground (arith, h)))
      (λ callback d h. absurd (ground (arith, h))) stopped_written
