-- ===== src/State/Json/Restore.antt =====
-- What is restored from a snapshot that was written.

use verdict_risk.Engine.Authority.Snapshot.{IsSoundBreaker, IsSoundGate, from_state-snapshot_state}
use verdict_risk.Engine.Authority.{RiskAuthority, traverse, snapshot_state, from_state}
use verdict_risk.State.{RiskContext, RiskDecision, RiskState, risk_state_init}
use verdict_risk.Py.Except.Ensures.{ok_of_bind, require-ok, raise_if-ok}
use verdict_risk.Prelude.{
  All, any, ℤ, pos, String, ◌≡◌, refl, sym, ap, ◌∙◌, subst, ◌↔◌, Bool, true, false, not, Option,
  none, some, List, [], ◌∷◌, arith,
}
use verdict_risk.Py.Except.{Result, ◌>>=◌, ◌>>◌, require, ok}
use verdict_risk.Receipts.{Value, Fields, whole, mapping, scalar}
use verdict_risk.State.Json.{
  Library, reword, as_object, keys, get, minus_keys, allowed_keys, is_nil, is_version,
  state_to_json, check_object, state_from_json,
}
use text.Mathlib.Text.{◌==◌ as str_eq}

-- Each key is one of the others.
abbrev pub AllAmong : List String → List String → Type 0
AllAmong xs ys = All (λ x. any (str_eq x) ys ≡ true) xs

minus_keys_iff : (xs ys : List String) → (is_nil (minus_keys xs ys) ≡ true) ↔ AllAmong xs ys
minus_keys_iff [] ys = ground arith
minus_keys_iff (x ∷ xs) ys = ground (arith, minus_keys_iff xs ys)

is_version_iff : (v : Value) → (is_version v ≡ true) ↔ (v ≡ scalar (whole (pos 1)))
is_version_iff v = ground arith

-- The object has the five keys, no other, and the version that is supported.
abbrev pub IsSnapshot : Fields → Type 0
IsSnapshot fields =
    AllAmong (keys fields) allowed_keys
    × AllAmong allowed_keys (keys fields)
    × (get "schema_version" fields ≡ some (scalar (whole (pos 1))))

check_object_iff :
    (library : Library) (fields : Fields)
    → (check_object library fields ≡ ok tt) ↔ IsSnapshot fields
unfolding check_object
check_object_iff library fields = (
  λ h.
      let (a, h) =
        (raise_if-ok (not (is_nil (minus_keys (keys fields) allowed_keys))) _ _ tt).0 h in
      let (b, h) =
        (raise_if-ok (not (is_nil (minus_keys allowed_keys (keys fields)))) _ _ tt).0 h in
      let (version, e, h) = ok_of_bind (require (get "schema_version" fields) _) _ tt h in
      let (c, _) = (raise_if-ok (not (is_version version)) _ _ tt).0 h in
      (
        (minus_keys_iff (keys fields) allowed_keys).0 (not_false _ a),
        (minus_keys_iff allowed_keys (keys fields)).0 (not_false _ b),
        (require-ok (get "schema_version" fields) _ version).0 e
            ∙ ap some ((is_version_iff version).0 (not_false _ c)),
      ),
  λ (a, b, c).
      rw
        (
          (minus_keys_iff (keys fields) allowed_keys).1 a,
          (minus_keys_iff allowed_keys (keys fields)).1 b,
          c,
        )
        refl,
)
  where
    not_false : (b : Bool) → not b ≡ false → b ≡ true
    not_false b h = ground arith

reword-ok :
    {A : Type 0} (library : Library) (prefix : String) (m : Result A) (a : A)
    → (reword library prefix m ≡ ok a) ↔ (m ≡ ok a)
reword-ok library prefix m a = ground arith

as_object-mapping : (v : Value) (found : Fields) → as_object v ≡ some found → v ≡ mapping found
as_object-mapping v found h = ground arith

-- A payload is restored exactly when it parses to an object that has the five keys of a snapshot,
-- no other, and the integer 1 as its schema version, and the codec decodes that object to the
-- state.
pub state_from_json_iff :
    (library : Library) (payload : String) (s : RiskState)
    → (state_from_json library payload ≡ ok s) ↔ (
        (fields : Fields) × (library.raw.decode payload ≡ ok (mapping fields))
        × IsSnapshot fields
        × (library.state.decode (library.raw.encode (mapping fields)) ≡ ok s))
unfolding state_from_json
state_from_json_iff library payload s = (
  λ h.
      let (raw, e, h) = ok_of_bind (reword library _ (library.raw.decode payload)) _ s h in
      let (fields, o, h) = ok_of_bind (require (as_object raw) _) _ s h in
      let (c, h) = done (check_object library fields) _ h in
      let same = as_object-mapping raw fields ((require-ok (as_object raw) _ fields).0 o) in
      (
        fields,
        (reword-ok library _ (library.raw.decode payload) raw).0 e ∙ ap ok same,
        (check_object_iff library fields).0 c,
        (reword-ok library _ (library.state.decode (library.raw.encode (mapping fields))) s).0 h,
      ),
  λ (fields, e, c, d). rw (e, (check_object_iff library fields).1 c, d) refl,
)
  where
    done :
        (m : Result (Unit {0})) (next : Result RiskState)
        → (m >> next) ≡ ok s
        → (m ≡ ok tt) × (next ≡ ok s)
    done m next h = ground arith

-- The codec writes the snapshot as an object with its five keys, and what is decoded from that object is
-- the snapshot.
abbrev pub Writes : Library → RiskState → Type 0
Writes library s =
    (fields : Fields) × (library.raw.decode (library.state.encode s) ≡ ok (mapping fields))
    × (keys fields ≡ allowed_keys)
    × (get "schema_version" fields ≡ some (scalar (whole s.schema_version)))
    × (library.state.decode (library.raw.encode (mapping fields)) ≡ ok s)

state_from_json-state_to_json :
    (library : Library) (s : RiskState)
    → s.schema_version ≡ pos 1
    → Writes library s
    → state_from_json library (state_to_json library s) ≡ ok s
unfolding state_to_json
state_from_json-state_to_json library s current (fields, e, k, v, d) =
    (state_from_json_iff library (library.state.encode s) s).1 (
      fields,
      e,
      (
        subst (λ (ks : List String). AllAmong ks allowed_keys) (sym k)
            (refl, (refl, (refl, (refl, (refl, tt))))),
        subst (λ (ks : List String). AllAmong allowed_keys ks) (sym k)
            (refl, (refl, (refl, (refl, (refl, tt))))),
        v ∙ ap (λ (i : ℤ). some (scalar (whole i))) current,
      ),
      d,
    )

snapshot_state-current :
    (a : RiskAuthority) (ctx : RiskContext) (s : RiskState)
    → snapshot_state a ctx ≡ ok s
    → s.schema_version ≡ pos 1
unfolding snapshot_state risk_state_init
snapshot_state-current a ctx s h =
    let (breaker, _, h) = ok_of_bind (traverse _ a.timed_breaker) _ s h in
    let (gate, _, h) = ok_of_bind (traverse _ a.consecutive_loss_gate) _ s h in ground (arith, h)

-- If the codec writes the snapshot as an object with its five keys, the version under its own, and
-- decodes that object to the snapshot, then an authority with sound gates, or none, that is
-- written as JSON and read back is the authority with the new callback and no reason reported.
pub from_state-state_from_json :
    (library : Library) (a : RiskAuthority) (ctx : RiskContext)
    (on_trip : Option (RiskDecision → RiskDecision))
    → IsSoundBreaker a.timed_breaker
    → IsSoundGate a.consecutive_loss_gate
    → ((s : RiskState) → snapshot_state a ctx ≡ ok s → Writes library s)
    → (snapshot_state a ctx >>= λ s.
        state_from_json library (state_to_json library s) >>= λ restored.
        from_state restored on_trip)
      ≡ ok (record a { on_trip = on_trip; last_trip_reason = none })
from_state-state_from_json library a ctx on_trip sound_breaker sound_gate writes =
    let (s, e, _, back) = from_state-snapshot_state a ctx on_trip sound_breaker sound_gate in
    rw (e, state_from_json-state_to_json library s (snapshot_state-current a ctx s e) (writes s e))
      back
