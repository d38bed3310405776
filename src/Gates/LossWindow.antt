-- ===== src/Gates/LossWindow.antt =====
-- `evaluate_consecutive_losses`: a streak of losses inside a window of minutes.
pub mod Sort
pub mod Total
pub mod Streak
use verdict_risk.Prelude.{
  ltb, if◌then◌else◌, length, any, ltb_ℤ, leb_ℤ, pos, ℕ, ◌+◌, ◌*◌, ◌^◌, Bool, not, ◌&&◌, ◌||◌,
  Option, none, some, List, [], ◌∷◌, reverse,
}
use verdict_risk.Py.Except.{Result, ◌>>=◌, ok}
use verdict_risk.Py.Float.{plus, Float, finite, is_finite, lt, le, mul, zero_float}
use verdict_risk.Py.Time.{Datetime, instant, subtract, total_seconds}
use verdict_risk.Py.Format.{join, str_nat, repr}
use verdict_risk.State.{RiskContext, RiskDecision, TradeOutcome}
use verdict_risk.Gates.Verdict.{Verdict, reject, pass, TimezoneMode, timezone_mode, same_mode}

-- The set of the modes that occur.
abbrev pub in_modes : TimezoneMode → List TimezoneMode → Bool
in_modes m = any (same_mode m)

unfoldable pub modes_of : List TradeOutcome → List TimezoneMode
modes_of [] = []
modes_of (o ∷ rest) =
    let m = timezone_mode o.timestamp in
    let seen = modes_of rest in if in_modes m seen then seen else m ∷ seen

-- `a < b` on datetimes of one mode
abbrev pub earlier : Datetime → Datetime → Bool
earlier a b = ltb_ℤ (instant a) (instant b)

-- `max(...)` of the timestamps, the first of the latest; `best` is the latest so far.
unfoldable pub latest_from : Datetime → List TradeOutcome → Datetime
latest_from best [] = best
latest_from best (o ∷ rest) =
    latest_from (if earlier best o.timestamp then o.timestamp else best) rest

-- `sorted(trade_outcomes, key=lambda x: x.timestamp)`, which is stable
unfoldable pub insert_outcome : TradeOutcome → List TradeOutcome → List TradeOutcome
insert_outcome o [] = o ∷ []
insert_outcome o (p ∷ rest) =
    if earlier p.timestamp o.timestamp then p ∷ insert_outcome o rest else o ∷ p ∷ rest

unfoldable pub sort_outcomes : List TradeOutcome → List TradeOutcome
unfolding insert_outcome
sort_outcomes [] = []
sort_outcomes (o ∷ rest) = insert_outcome o (sort_outcomes rest)

-- What one outcome says to the loop.
pub data Step : Type 0 where
  win old counted from_future : Step

-- Where a loss stands, by the seconds since it.
unfoldable pub place_loss : Float → Float → Step
place_loss limit_seconds diff_seconds =
    if lt diff_seconds zero_float
    then Step.from_future
    else if le zero_float diff_seconds && le diff_seconds limit_seconds
    then Step.counted
    else Step.old

unfoldable pub classify : Datetime → Float → TradeOutcome → Result Step
unfolding subtract total_seconds place_loss
classify current_time limit_seconds o =
    if lt o.pnl zero_float
    then (subtract current_time o.timestamp >>= λ time_diff.
        ok (place_loss limit_seconds (total_seconds time_diff)))
    else ok Step.win

-- `ctx.consecutive_loss_window_minutes * 60.0`
unfoldable pub window_seconds : RiskContext → Float
unfolding mul
window_seconds ctx = mul ctx.consecutive_loss_window_minutes (finite plus (60 * 2 ^ 1074))

-- The loop over the outcomes, newest first, with the losses counted so far.
unfoldable pub count_losses :
    RiskContext → Datetime → RiskDecision → List TradeOutcome → ℕ → Verdict
unfolding classify window_seconds
count_losses ctx current_time decision [] count = pass decision
count_losses ctx current_time decision (o ∷ rest) count =
    let next = count_losses ctx current_time decision rest (count + 1) in
    classify current_time (window_seconds ctx) o >>= elim [
      | Step.win ↦ pass decision
      | Step.old ↦ pass decision
      | Step.from_future ↦ reject decision "ERR_INVALID_TIME_ORDER"
      | Step.counted ↦
          if leb_ℤ ctx.consecutive_loss_limit (pos (count + 1))
          then reject decision (
              join (
                "ERR_CONSECUTIVE_LOSS_LIMIT: "
                ∷ str_nat (count + 1)
                ∷ " consecutive losses within "
                ∷ repr ctx.consecutive_loss_window_minutes
                ∷ " minutes"
                ∷ []))
          else next
    ]

-- From the checks of the time zones on.
unfoldable pub evaluate_outcomes :
    RiskContext → TradeOutcome → List TradeOutcome → Option Datetime → RiskDecision → Verdict
evaluate_outcomes ctx first rest current_time decision =
    let outcomes = first ∷ rest in
    let modes = modes_of outcomes in
    if ltb 1 (length modes)
    then reject decision "ERR_INVALID_TIMEZONE_MIXED"
    else if any (λ o. not (is_finite o.pnl)) outcomes
    then reject decision "ERR_INVALID_FLOAT_CONSECUTIVE_LOSSES"
    else elim current_time [
      | none ↦
          count_losses ctx (latest_from first.timestamp rest) decision
            (reverse (sort_outcomes outcomes)) 0
      | some now ↦
          if not (in_modes (timezone_mode now) modes)
          then reject decision "ERR_INVALID_TIMEZONE_MIXED"
          else count_losses ctx now decision (reverse (sort_outcomes outcomes)) 0
    ]

unfoldable pub evaluate_consecutive_losses :
    RiskContext → Option (List TradeOutcome) → Option Datetime → RiskDecision → Verdict
unfolding evaluate_outcomes
evaluate_consecutive_losses ctx trade_outcomes current_time decision =
    if ltb_ℤ ctx.consecutive_loss_limit (pos 0) || lt ctx.consecutive_loss_window_minutes zero_float
    then reject decision "ERR_INVALID_CONSECUTIVE_LOSS_CONTEXT"
    else if leb_ℤ ctx.consecutive_loss_limit (pos 0)
    then pass decision
    else elim trade_outcomes [
      | none ↦ pass decision
      | some [] ↦ pass decision
      | some (first ∷ rest) ↦ evaluate_outcomes ctx first rest current_time decision
    ]
