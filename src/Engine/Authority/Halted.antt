-- ===== src/Engine/Authority/Halted.antt =====
-- What a tripped kill switch does to the trades that come.

use verdict_risk.Engine.Chain.Approval.{new_decision-finite}
use verdict_risk.Gates.KillSwitch
use verdict_risk.Gates.KillSwitch.{KillSwitch, check}
use verdict_risk.Py.Float.{Float, is_finite}
use verdict_risk.Py.Except.{ok}
use verdict_risk.State.{RiskContext, RiskDecision}
use verdict_risk.Prelude.{
  Bool-cases, Option-cases, ℕ, ◌≡◌, refl, subst, ◌↔◌, sym, ◌∙◌, inl, inr, true, false, ◌⊎◌, String,
  Option, none, some, [], ◌∷◌, arith,
}
use verdict_risk.Engine.Chain.{Trade}
use text.Mathlib.TextEquality.{eq_iff}
use verdict_risk.Engine.Authority.{
  RiskAuthority, Evaluation, same_reason, maybe_fire_trip, pass_kill_switch, evaluate_with_state,
}

-- The decision of a halt.
abbrev pub rejection : String → Float → RiskDecision
rejection reason size = record { approved = false; reason_code = reason; suggested_size = size }

-- Nothing but the last reason that was reported may have changed.
abbrev pub SameGates : RiskAuthority → RiskAuthority → Type 0
SameGates a b =
    (b.kill_switch ≡ a.kill_switch)
    × (b.timed_breaker ≡ a.timed_breaker)
    × (b.consecutive_loss_gate ≡ a.consecutive_loss_gate)
    × (b.on_trip ≡ a.on_trip)

-- The rejection is the answer, and nothing is called.
abbrev pub AnswersSilently : RiskAuthority → RiskDecision → Evaluation → Type 0
AnswersSilently a d e =
    (e.answer ≡ ok d) × (e.calls ≡ []) × (e.authority.last_trip_reason ≡ a.last_trip_reason)

-- The callback is called once, with the rejection; the answer is what it leaves of it, and the reason
-- is now the last one.
abbrev pub AnswersReported : (RiskDecision → RiskDecision) → RiskDecision → Evaluation → Type 0
AnswersReported callback d e =
    (e.answer ≡ ok (callback d))
    × (e.calls ≡ d ∷ [])
    × (e.authority.last_trip_reason ≡ some d.reason_code)

-- The rejection is answered silently, for want of a callback or since its reason is the last that was
-- reported, or else it is reported.
abbrev pub Rejects : RiskAuthority → RiskDecision → Evaluation → Type 0
Rejects a d e =
    SameGates a e.authority
    × ((((a.on_trip ≡ none) ⊎ (a.last_trip_reason ≡ some d.reason_code)) × AnswersSilently a d e)
        ⊎ ((callback : RiskDecision → RiskDecision) × (a.on_trip ≡ some callback)
            × ¬ (a.last_trip_reason ≡ some d.reason_code)
            × AnswersReported callback d e))

same_reason_iff :
    (reason : String) (last : Option String)
    → (same_reason reason last ≡ true) ↔ (last ≡ some reason)
same_reason_iff reason none = ground arith
same_reason_iff reason (some last) = ground (arith, eq_iff reason last)

maybe_fire_trip-Rejects : (a : RiskAuthority) (d : RiskDecision) → Rejects a d (maybe_fire_trip a d)
unfolding maybe_fire_trip
maybe_fire_trip-Rejects a d = elim (Option-cases a.on_trip) [
  | inl absent ↦ ground arith
  | inr (callback, present) ↦ elim (Bool-cases (same_reason d.reason_code a.last_trip_reason)) [
    | inl same ↦ ground (arith, same_reason_iff d.reason_code a.last_trip_reason)
    | inr other ↦ ground (arith, same_reason_iff d.reason_code a.last_trip_reason)
  ]
]

killed :
    (a : RiskAuthority) (ctx : RiskContext) (trade : Trade) (ns : ℕ) (switch : KillSwitch)
    → a.kill_switch ≡ some switch
    → switch.tripped ≡ true
    → is_finite trade.proposed_cost ≡ true
    → evaluate_with_state a ctx trade ns
      ≡ maybe_fire_trip a (rejection switch.reason trade.proposed_cost)
unfolding evaluate_with_state pass_kill_switch KillSwitch.check
killed a ctx trade ns switch h t f = ground (arith, new_decision-finite trade.proposed_cost f)

abbrev IsReported : RiskAuthority → String → Type 0
IsReported a reason = (a.on_trip ≡ none) ⊎ (a.last_trip_reason ≡ some reason)

maybe_fire_trip-IsReported :
    (a : RiskAuthority) (d : RiskDecision)
    → IsReported a d.reason_code
    → maybe_fire_trip a d ≡ record { authority = a; answer = ok d; calls = [] }
unfolding maybe_fire_trip
maybe_fire_trip-IsReported a d (inl absent) = rw absent refl
maybe_fire_trip-IsReported a d (inr last) =
    let same = (same_reason_iff d.reason_code a.last_trip_reason).1 last in
    elim (Option-cases a.on_trip) [
      | inl absent ↦ rw absent refl
      | inr (callback, present) ↦ ground arith
    ]

Rejects-IsReported :
    (a : RiskAuthority) (d : RiskDecision) (e : Evaluation)
    → Rejects a d e
    → IsReported e.authority d.reason_code
Rejects-IsReported a d e ((_, _, _, on_trip), inl (inl absent, _)) = inl (on_trip ∙ absent)
Rejects-IsReported a d e (_, inl (inr last, (_, _, kept))) = inr (kept ∙ last)
Rejects-IsReported a d e (_, inr (callback, _, _, (_, _, now))) = inr now

-- While the kill switch is tripped, a trade of finite cost is rejected with the reason of the
-- switch and the cost as its size, and no gate changes. The callback is called with that
-- rejection, once, and the answer is what it leaves of it; without a callback, or if that reason
-- was the last that was reported, nothing is called and the answer is the rejection itself. Any
-- next trade of finite cost is rejected too, with no call, and leaves the authority as it is.
pub evaluate_with_state_killed :
    (a : RiskAuthority) (ctx ctx' : RiskContext) (trade trade' : Trade) (ns ns' : ℕ)
    (switch : KillSwitch)
    → a.kill_switch ≡ some switch
    → switch.tripped ≡ true
    → is_finite trade.proposed_cost ≡ true
    → is_finite trade'.proposed_cost ≡ true
    → let e = evaluate_with_state a ctx trade ns in
      Rejects a (rejection switch.reason trade.proposed_cost) e
      × (evaluate_with_state e.authority ctx' trade' ns' ≡ record {
        authority = e.authority;
        answer = ok (rejection switch.reason trade'.proposed_cost);
        calls = [];
      })
evaluate_with_state_killed a ctx ctx' trade trade' ns ns' switch h t f f' =
    let d = rejection switch.reason trade.proposed_cost in
    let e = evaluate_with_state a ctx trade ns in
    let first = killed a ctx trade ns switch h t f in
    let rejects = subst (Rejects a d) (sym first) (maybe_fire_trip-Rejects a d) in
    let second = killed e.authority ctx' trade' ns' switch (rejects.0.0 ∙ h) t f' in
    (
      rejects,
      second
          ∙ maybe_fire_trip-IsReported e.authority (rejection switch.reason trade'.proposed_cost)
              (Rejects-IsReported a d e rejects),
    )
