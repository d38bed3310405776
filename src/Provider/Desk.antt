-- ===== src/Provider/Desk.antt =====
-- A provider on a desk: requests, settled trades and operator actions, in any order.
mod Tests
use verdict_risk.Provider.{trade_of, decide}
use verdict_risk.Provider.Request.{RiskProviderRequest}
use verdict_risk.Provider.Evaluate.{
  Runtime, RiskProviderResult, RiskProvider, provider_init, evaluate,
}
use verdict_risk.Provider.Agreement.{AllApproved}
use verdict_risk.Provider.Advisory.{evaluate_approved}
use verdict_risk.Prelude.{
  ℤ, ◌≤ℤ◌, pos, ℕ, ◌/◌, String, ◌≡◌, refl, sym, ap, ◌∙◌, subst, true, Option, some, List, [], ◌∷◌,
}
use verdict_risk.Py.Except.{ok}
use verdict_risk.Py.Float.{Float}
use verdict_risk.State.{RiskContext, RiskDecision}
use verdict_risk.Gates.Pass.{approval}
use verdict_risk.Gates.KillSwitch
use verdict_risk.Gates.TimedBreaker
use verdict_risk.Gates.TimedBreaker.{TimedCircuitBreaker}
use verdict_risk.Gates.LossGate
use verdict_risk.Gates.LossGate.{ConsecutiveLossGate}
use verdict_risk.Engine.Authority.{init}
use verdict_risk.Engine.Authority.Stateful.{KeepsRejections}
use verdict_risk.Engine.Authority.Session.{Use, step, session, evaluating}
use verdict_risk.Engine.Authority.Session.Passes.{NotHalted, FewLosses, Rested}
use verdict_risk.Engine.Authority.Session.Approves.{guarded, session-KeepsRejections, gates-after}

-- A request is evaluated, with the times that the engine and the provider take, or something else is
-- done with the authority.
pub data Event : Type 0 where
  asking : RiskProviderRequest → ℕ → ℕ → Event
  using : Use → Event

-- The provider after a day.
pub day : Runtime → RiskProvider → List Event → RiskProvider
day runtime p [] = p
day runtime p (asking request elapsed_ns total_ns ∷ events) =
    day runtime (evaluate runtime p request elapsed_ns total_ns).provider events
day runtime p (using u ∷ events) = day runtime (record p { authority = step p.authority u }) events

-- What is done with the authority on the day.
abbrev pub uses_of : RiskContext → List Event → List Use
uses_of ctx [] = []
uses_of ctx (asking request elapsed_ns total_ns ∷ events) =
    evaluating ctx (trade_of request) elapsed_ns ∷ uses_of ctx events
uses_of ctx (using u ∷ events) = u ∷ uses_of ctx events

-- A day is a session of the authority, with the configuration that stays.
day-session :
    (runtime : Runtime) (p : RiskProvider) (events : List Event)
    → day runtime p events ≡ record p { authority = session p.authority (uses_of p.ctx events) }
unfolding day session evaluate decide step
day-session runtime p [] = refl
day-session runtime p (asking request elapsed_ns total_ns ∷ events) =
    day-session runtime (evaluate runtime p request elapsed_ns total_ns).provider events
day-session runtime p (using u ∷ events) =
    day-session runtime (record p { authority = step p.authority u }) events

-- For a provider with new gates and a callback that keeps rejections, after any day of requests,
-- settled trades and operator actions: a result that is returned as approved says that no trip of
-- the switch stands since its last reset, the breaker is below its threshold or at it with its
-- cooldown over, the results since the last reset of the loss gate do not fill its window or have
-- few enough losses in it, every entry of the report approves, the engine took at most the latency
-- budget, and the size is the whole cost.
pub evaluate_approved-day :
    (reason : String) (threshold max_losses window : ℤ) (cooldown : Float) (b : TimedCircuitBreaker)
    (g : ConsecutiveLossGate) (on_trip : Option (RiskDecision → RiskDecision)) (ctx : RiskContext)
    (runtime : Runtime) (events : List Event) (request : RiskProviderRequest)
    (elapsed_ns total_ns : ℕ) (result : RiskProviderResult)
    → TimedBreaker.init threshold cooldown ≡ ok b
    → LossGate.init max_losses window ≡ ok g
    → KeepsRejections (guarded reason b g on_trip)
    → let opened = provider_init (some ctx) (some (guarded reason b g on_trip)) in
      let now = day runtime opened events in
      (evaluate runtime now request elapsed_ns total_ns).answer ≡ ok result
      → result.approved ≡ true
      → NotHalted (uses_of ctx events)
        × Rested b now.authority.timed_breaker request.current_time
        × FewLosses g (uses_of ctx events)
        × AllApproved result.gate_outcomes
        × (pos (elapsed_ns / 1000) ≤ℤ ctx.latency_budget_us)
        × (result.suggested_size ≡ request.proposed_cost)
unfolding provider_init
evaluate_approved-day reason threshold max_losses window cooldown b g on_trip ctx runtime events
      request elapsed_ns total_ns result e k keeps h good =
    let a = guarded reason b g on_trip in
    let uses = uses_of ctx events in
    let p : RiskProvider = record { ctx = ctx; authority = session a uses } in
    let same : day runtime (record { ctx = ctx; authority = a }) events ≡ p =
      day-session runtime (record { ctx = ctx; authority = a }) events in
    let (switch, breaker, gate) =
      gates-after reason threshold max_losses window cooldown b g on_trip uses
        (approval request.proposed_cost) request.current_time e k in
    let (s, t, l, report, soon, size) =
      evaluate_approved runtime p request elapsed_ns total_ns result
        (session-KeepsRejections a uses keeps)
        (ap (λ (q : RiskProvider). (evaluate runtime q request elapsed_ns total_ns).answer)
            (sym same)
          ∙ h)
        good in
    (
      switch.0 s,
      subst (λ (q : RiskProvider). Rested b q.authority.timed_breaker request.current_time)
          (sym same) (breaker.0 t),
      gate.0 l,
      report,
      soon,
      size,
    )
