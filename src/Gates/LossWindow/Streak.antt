-- ===== src/Gates/LossWindow/Streak.antt =====
-- What `evaluate_consecutive_losses` decides: the length of the newest run of recent losses.

use verdict_risk.Gates.LossWindow.Sort.{All-reverse, All-sort_outcomes}
use verdict_risk.Gates.Verdict.{pass, TimezoneMode, timezone_mode}
use verdict_risk.Gates.LossWindow.Total.{SameMode, step_of, classify-SameMode}
use verdict_risk.Gates.LossWindow.{
  modes_of, sort_outcomes, Step, place_loss, window_seconds, count_losses,
  evaluate_consecutive_losses,
}
use verdict_risk.State.{RiskContext, RiskDecision, TradeOutcome}
use verdict_risk.Py.Time.{Datetime, instant, total_seconds}
use verdict_risk.Py.Float.{
  plus, minus, lt-eq-not-le, le_of_lt, is_nan, is_finite, lt, le, nonneg-round, not_nan-round,
  zero_float,
}
use verdict_risk.Prelude.{
  if◌then◌else◌, All, any, ℤ, pos_part, neg_part, ◌-ℤ◌, ◌≤ℤ◌, ltb_ℤ, pos, negsuc, ℕ, suc, ◌+◌, ◌-◌,
  ◌*◌, ◌^◌, ◌≡◌, refl, sym, ◌↔◌, ◌⊎◌, Bool, true, false, not, ◌&&◌, some, List, [], ◌∷◌, reverse,
  arith,
}

-- A loss whose distance from `now` is within the window.
abbrev pub recent_loss : RiskContext → Datetime → TradeOutcome → Bool
recent_loss ctx now o =
    lt o.pnl zero_float
    && le (total_seconds (instant now -ℤ instant o.timestamp)) (window_seconds ctx)

-- The recent losses at the head of the list.
unfoldable pub losing_run : RiskContext → Datetime → List TradeOutcome → ℕ
losing_run ctx now [] = 0
losing_run ctx now (o ∷ os) =
    let longer = suc (losing_run ctx now os) in if recent_loss ctx now o then longer else 0

abbrev pub Past : Datetime → TradeOutcome → Type 0
Past now o = instant o.timestamp ≤ℤ instant now

past_delta : (a b : ℤ) → a ≤ℤ b → (n : ℕ) × (b -ℤ a ≡ pos n)
unfolding ◌-ℤ◌
past_delta a b h = (pos_part b + neg_part a - (neg_part b + pos_part a), ground arith)

total_seconds-nonneg : (n : ℕ) → lt (total_seconds (pos n)) zero_float ≡ false
unfolding total_seconds
total_seconds-nonneg n = nonneg-round ((n + 0) * 2 ^ 1074) (10 ^ 6)

Past-seconds :
    (now : Datetime) (o : TradeOutcome)
    → Past now o
    → lt (total_seconds (instant now -ℤ instant o.timestamp)) zero_float ≡ false
Past-seconds now o h =
    let (n, e) = past_delta (instant o.timestamp) (instant now) h in rw e (total_seconds-nonneg n)

total_seconds-num : (z : ℤ) → is_nan (total_seconds z) ≡ false
unfolding total_seconds
total_seconds-num (pos n) = not_nan-round plus ((n + 0) * 2 ^ 1074) (10 ^ 6)
total_seconds-num (negsuc n) = not_nan-round minus ((0 + suc n) * 2 ^ 1074) (10 ^ 6)

step_of-Past :
    (ctx : RiskContext) (now : Datetime) (o : TradeOutcome)
    → Past now o
    → (recent_loss ctx now o ≡ true → step_of now (window_seconds ctx) o ≡ Step.counted)
      × (recent_loss ctx now o ≡ false
          → (step_of now (window_seconds ctx) o ≡ Step.win)
            ⊎ (step_of now (window_seconds ctx) o ≡ Step.old))
unfolding step_of place_loss is_nan
step_of-Past ctx now o h =
    let seconds = total_seconds (instant now -ℤ instant o.timestamp) in
    ground (
      arith,
      Past-seconds now o h,
      total_seconds-num (instant now -ℤ instant o.timestamp),
      lt-eq-not-le seconds zero_float,
      lt-eq-not-le zero_float seconds,
      le_of_lt zero_float seconds,
    )

abbrev IsPastOf : Datetime → TradeOutcome → Type 0
IsPastOf now o = SameMode now o × Past now o

count_losses_iff :
    (ctx : RiskContext) (now : Datetime) (d : RiskDecision) (os : List TradeOutcome) (n : ℕ)
    → All (IsPastOf now) os
    → ltb_ℤ (pos n) ctx.consecutive_loss_limit ≡ true
    → (count_losses ctx now d os n ≡ pass d)
      ↔ (ltb_ℤ (pos (n + losing_run ctx now os)) ctx.consecutive_loss_limit ≡ true)
unfolding count_losses losing_run
count_losses_iff ctx now d [] n h k = ground arith
count_losses_iff ctx now d (o ∷ os) n ((m, p), hs) k =
    rw (classify-SameMode now (window_seconds ctx) o m)
      (ground (arith, step_of-Past ctx now o p, count_losses_iff ctx now d os (n + 1) hs))

modes_of-one :
    (m : TimezoneMode) (o : TradeOutcome) (os : List TradeOutcome)
    → All (λ p. timezone_mode p.timestamp ≡ m) (o ∷ os)
    → modes_of (o ∷ os) ≡ m ∷ []
unfolding modes_of
modes_of-one m o [] (h, hs) = rw h
modes_of-one m o (p ∷ os) (h, hs) = rw (modes_of-one m p os hs) (ground arith)

any-not_finite :
    (os : List TradeOutcome)
    → All (λ p. is_finite p.pnl ≡ true) os
    → any (λ p. not (is_finite p.pnl)) os ≡ false
any-not_finite [] h = refl
any-not_finite (o ∷ os) (h, hs) = ground (arith, any-not_finite os hs)

All-map :
    (P Q : TradeOutcome → Type 0)
    → ((o : TradeOutcome) → P o → Q o)
    → (os : List TradeOutcome) → All P os
    → All Q os
All-map P Q f [] h = tt
All-map P Q f (o ∷ os) (h, hs) = (f o h, All-map P Q f os hs)

All-both :
    (P Q : TradeOutcome → Type 0) (os : List TradeOutcome)
    → All P os
    → All Q os
    → All (λ o. P o × Q o) os
All-both P Q [] h k = tt
All-both P Q (o ∷ os) (h, hs) (k, ks) = ((h, k), All-both P Q os hs ks)

loop_iff :
    (ctx : RiskContext) (now : Datetime) (os : List TradeOutcome) (d : RiskDecision)
    → pos 1 ≤ℤ ctx.consecutive_loss_limit
    → All (SameMode now) os
    → All (Past now) os
    → let recent = reverse (sort_outcomes os) in
      (count_losses ctx now d recent 0 ≡ pass d)
      ↔ (pos (suc (losing_run ctx now recent)) ≤ℤ ctx.consecutive_loss_limit)
loop_iff ctx now os d l m p =
    let recent = reverse (sort_outcomes os) in
    let both =
      All-reverse (IsPastOf now) (sort_outcomes os)
        (All-sort_outcomes (IsPastOf now) os (All-both (SameMode now) (Past now) os m p)) in
    ground (arith, count_losses_iff ctx now d recent 0 both)

-- With a limit of at least 1, a window that is not negative, and outcomes that have finite
-- results, the time zone mode of now, and no later times, the gate lets a trade through exactly
-- when the newest run of losses inside the window is shorter than the limit.
pub evaluate_consecutive_losses_iff :
    (ctx : RiskContext) (now : Datetime) (o : TradeOutcome) (os : List TradeOutcome)
    (d : RiskDecision)
    → pos 1 ≤ℤ ctx.consecutive_loss_limit
    → lt ctx.consecutive_loss_window_minutes zero_float ≡ false
    → All (λ p. is_finite p.pnl ≡ true) (o ∷ os)
    → All (SameMode now) (o ∷ os)
    → All (Past now) (o ∷ os)
    → (evaluate_consecutive_losses ctx (some (o ∷ os)) (some now) d ≡ pass d) ↔ (
        pos (suc (losing_run ctx now (reverse (sort_outcomes (o ∷ os)))))
        ≤ℤ ctx.consecutive_loss_limit)
unfolding evaluate_consecutive_losses
evaluate_consecutive_losses_iff ctx now o os d l w f m p = ground (
  arith,
  modes_of-one (timezone_mode now) o os (All-map (SameMode now) _ (λ q. sym) (o ∷ os) m),
  any-not_finite (o ∷ os) f,
  loop_iff ctx now (o ∷ os) d l m p,
)
