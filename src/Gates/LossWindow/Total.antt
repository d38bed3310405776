-- ===== src/Gates/LossWindow/Total.antt =====
-- `evaluate_consecutive_losses` raises nothing: its checks of the time zones come before every
-- subtraction of datetimes.

use verdict_risk.Gates.LossWindow.Sort.{All-reverse, All-sort_outcomes}
use verdict_risk.Gates.Verdict.{TimezoneMode, timezone_mode, Answers, subtract_same_mode}
use verdict_risk.State.{RiskContext, RiskDecision, TradeOutcome}
use verdict_risk.Py.Time.{Datetime, instant, total_seconds}
use verdict_risk.Py.Float.{Float, lt, zero_float}
use verdict_risk.Py.Except.{ok}
use verdict_risk.Prelude.{
  ltb, if◌then◌else◌, Bool-cases, length, All, ◌-ℤ◌, ℕ, ◌+◌, ◌≤◌, ◌≡◌, refl, sym, ◌∙◌, subst, inl,
  inr, true, false, Option, none, some, List, [], ◌∷◌, reverse, arith,
}
use verdict_risk.Gates.LossWindow.{
  in_modes, modes_of, earlier, latest_from, sort_outcomes, Step, place_loss, classify,
  window_seconds, count_losses, evaluate_consecutive_losses,
}

abbrev pub SameMode : Datetime → TradeOutcome → Type 0
SameMode now o = timezone_mode now ≡ timezone_mode o.timestamp

-- What `classify` answers where the subtraction returns.
unfoldable pub step_of : Datetime → Float → TradeOutcome → Step
step_of now limit o =
    if lt o.pnl zero_float
    then place_loss limit (total_seconds (instant now -ℤ instant o.timestamp))
    else Step.win

pub classify-SameMode :
    (now : Datetime) (limit : Float) (o : TradeOutcome)
    → SameMode now o
    → classify now limit o ≡ ok (step_of now limit o)
unfolding classify step_of
classify-SameMode now limit o h = elim (Bool-cases (lt o.pnl zero_float)) [
  | inl loss ↦ rw (loss, subtract_same_mode now o.timestamp h)
  | inr gain ↦ rw gain
]

pub count_losses-Answers :
    (ctx : RiskContext) (now : Datetime) (d : RiskDecision) (os : List TradeOutcome) (n : ℕ)
    → All (SameMode now) os
    → Answers d (count_losses ctx now d os n)
unfolding count_losses
count_losses-Answers ctx now d [] n h = refl
count_losses-Answers ctx now d (o ∷ os) n (h, hs) =
    rw (classify-SameMode now (window_seconds ctx) o h)
      (ground (arith, count_losses-Answers ctx now d os (n + 1) hs))

-- All outcomes have the mode `m`.
abbrev HasMode : TimezoneMode → TradeOutcome → Type 0
HasMode m o = timezone_mode o.timestamp ≡ m

-- The set of the modes is empty for no outcomes, and holds the mode of each.
modes_of-nonempty : (o : TradeOutcome) (os : List TradeOutcome) → 1 ≤ length (modes_of (o ∷ os))
unfolding modes_of
modes_of-nonempty o [] = ground arith
modes_of-nonempty o (p ∷ os) = ground (arith, modes_of-nonempty p os)

one_mode : (m : TimezoneMode) (os : List TradeOutcome) → modes_of os ≡ m ∷ [] → All (HasMode m) os
unfolding modes_of
one_mode m [] h = tt
one_mode m (o ∷ []) h = (ground arith, tt)
one_mode m (o ∷ p ∷ os) h = elim (Bool-cases (in_modes mode (modes_of (p ∷ os)))) [
  | inl seen ↦
      let same : modes_of (p ∷ os) ≡ m ∷ [] = ground arith in
      let head : in_modes mode (m ∷ []) ≡ true = subst (λ l. in_modes mode l ≡ true) same seen in
      (ground arith, one_mode m (p ∷ os) same)
  | inr new ↦ absurd (ground (arith, modes_of-nonempty p os))
]
  where
    mode : TimezoneMode
    mode = timezone_mode o.timestamp

latest_from-mode :
    (m : TimezoneMode) (best : Datetime) (os : List TradeOutcome)
    → timezone_mode best ≡ m
    → All (HasMode m) os
    → timezone_mode (latest_from best os) ≡ m
unfolding latest_from
latest_from-mode m best [] h k = h
latest_from-mode m best (o ∷ os) h (k, ks) =
    latest_from-mode m (if earlier best o.timestamp then o.timestamp else best) os (ground arith) ks

All-SameMode :
    (m : TimezoneMode) (now : Datetime) (os : List TradeOutcome)
    → timezone_mode now ≡ m
    → All (HasMode m) os
    → All (SameMode now) os
All-SameMode m now [] h k = tt
All-SameMode m now (o ∷ os) h (k, ks) = (h ∙ sym k, All-SameMode m now os h ks)

-- The loop as it is called, on outcomes of one mode.
loop-Answers :
    (ctx : RiskContext) (m : TimezoneMode) (now : Datetime) (os : List TradeOutcome)
    (d : RiskDecision)
    → timezone_mode now ≡ m
    → modes_of os ≡ m ∷ []
    → Answers d (count_losses ctx now d (reverse (sort_outcomes os)) 0)
loop-Answers ctx m now os d h k = count_losses-Answers ctx now d (reverse (sort_outcomes os)) 0 (
    All-reverse (SameMode now) (sort_outcomes os)
      (All-sort_outcomes (SameMode now) os (All-SameMode m now os h (one_mode m os k))))

singleton :
    (ms : List TimezoneMode)
    → 1 ≤ length ms
    → ltb 1 (length ms) ≡ false
    → (m : TimezoneMode) × (ms ≡ m ∷ [])
singleton [] h k = elim h [ ]
singleton (m ∷ []) h k = (m, refl)
singleton (m ∷ n ∷ ms) h k = absurd (ground arith)

-- Past the first check all outcomes have the mode of the first.
pub modes_of_first :
    (o : TradeOutcome) (os : List TradeOutcome)
    → ltb 1 (length (modes_of (o ∷ os))) ≡ false
    → modes_of (o ∷ os) ≡ timezone_mode o.timestamp ∷ []
modes_of_first o os h =
    let (m, e) = singleton (modes_of (o ∷ os)) (modes_of-nonempty o os) h in
    rw ((one_mode m (o ∷ os) e).0) e

latest-Answers :
    (ctx : RiskContext) (o : TradeOutcome) (os : List TradeOutcome) (d : RiskDecision)
    → ltb 1 (length (modes_of (o ∷ os))) ≡ false
    → Answers d
        (count_losses ctx (latest_from o.timestamp os) d (reverse (sort_outcomes (o ∷ os))) 0)
latest-Answers ctx o os d h =
    let m = timezone_mode o.timestamp in
    let same = modes_of_first o os h in
    loop-Answers ctx m (latest_from o.timestamp os) (o ∷ os) d
      (latest_from-mode m o.timestamp os refl (one_mode m (o ∷ os) same).1) same

given-Answers :
    (ctx : RiskContext) (now : Datetime) (o : TradeOutcome) (os : List TradeOutcome)
    (d : RiskDecision)
    → ltb 1 (length (modes_of (o ∷ os))) ≡ false
    → in_modes (timezone_mode now) (modes_of (o ∷ os)) ≡ true
    → Answers d (count_losses ctx now d (reverse (sort_outcomes (o ∷ os))) 0)
given-Answers ctx now o os d h k =
    let m = timezone_mode o.timestamp in
    let same = modes_of_first o os h in
    let among : in_modes (timezone_mode now) (m ∷ []) ≡ true =
      subst (λ l. in_modes (timezone_mode now) l ≡ true) same k in
    loop-Answers ctx m now (o ∷ os) d (ground arith) same

-- The gate returns for all outcomes and times, with or without time zones: it lets the trade
-- through and leaves the decision alone, or it rejects and keeps the size.
pub evaluate_consecutive_losses-Answers :
    (ctx : RiskContext) (outcomes : Option (List TradeOutcome)) (now : Option Datetime)
    (d : RiskDecision)
    → Answers d (evaluate_consecutive_losses ctx outcomes now d)
unfolding evaluate_consecutive_losses
evaluate_consecutive_losses-Answers ctx none now d = ground arith
evaluate_consecutive_losses-Answers ctx (some []) now d = ground arith
evaluate_consecutive_losses-Answers ctx (some (o ∷ os)) none d =
    ground (arith, latest-Answers ctx o os d)
evaluate_consecutive_losses-Answers ctx (some (o ∷ os)) (some now) d =
    ground (arith, given-Answers ctx now o os d)
