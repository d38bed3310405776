-- ===== src/Gates/TimedBreaker/Streak.antt =====
-- Losses in a row: how many trip the breaker, what resets the count, and what is ignored.

use verdict_risk.Py.Time.{Datetime}
use verdict_risk.Py.Number.{Number, is_finite_number, is_negative, int}
use verdict_risk.Prelude.{
  length, All, ℤ, ◌+◌, ◌<◌, ◌≡◌, refl, ap, ◌∙◌, true, false, Option, List, [], ◌∷◌, arith,
}
use verdict_risk.Gates.TimedBreaker.{TimedCircuitBreaker, record_loss, record_trade}

-- Trades with their results and times, in order.
pub record_all : TimedCircuitBreaker → List (Number × Option Datetime) → TimedCircuitBreaker
record_all b [] = b
record_all b ((pnl, at) ∷ rest) = record_all (record_trade b pnl at) rest

abbrev pub IsLoss : Number × Option Datetime → Type 0
IsLoss t = (is_finite_number t.0 ≡ true) × (is_negative t.0 ≡ true)

record_trade-tripped :
    (b : TimedCircuitBreaker) (pnl : Number) (at : Option Datetime)
    → b.tripped ≡ true
    → record_trade b pnl at ≡ b
unfolding record_trade
record_trade-tripped b pnl at h = ground arith

-- The cooldown is absolute: whatever is recorded while the breaker is tripped changes nothing.
pub record_all-tripped :
    (b : TimedCircuitBreaker) (ts : List (Number × Option Datetime))
    → b.tripped ≡ true
    → record_all b ts ≡ b
unfolding record_all
record_all-tripped b [] h = refl
record_all-tripped b ((pnl, at) ∷ ts) h =
    ap (λ (c : TimedCircuitBreaker). record_all c ts) (record_trade-tripped b pnl at h)
    ∙ record_all-tripped b ts h

record_trade-below :
    (b : TimedCircuitBreaker) (pnl : Number) (at : Option Datetime)
    → b.tripped ≡ false
    → IsLoss (pnl, at)
    → b.loss_streak + 1 < b.consecutive_loss_threshold
    → record_trade b pnl at ≡ record b { loss_streak = b.loss_streak + 1 }
unfolding record_trade record_loss
record_trade-below b pnl at h l k = ground arith

-- The breaker after losses that leave it below the threshold.
below :
    (b : TimedCircuitBreaker) (ts : List (Number × Option Datetime))
    → b.tripped ≡ false
    → All IsLoss ts
    → b.loss_streak + length ts < b.consecutive_loss_threshold
    → record_all b ts ≡ record b { loss_streak = b.loss_streak + length ts }
unfolding record_all
below b [] h l k = ap (λ n. record b { loss_streak = n }) (omega arith)
below b (t ∷ ts) h (l, ls) k =
    ap (λ (c : TimedCircuitBreaker). record_all c ts)
      (record_trade-below b t.0 t.1 h l (omega arith))
    ∙ below (record b { loss_streak = b.loss_streak + 1 }) ts h ls (omega arith)
    ∙ ap (λ n. record b { loss_streak = n }) (omega arith)

-- A clear breaker with no losses in a row, after losses one fewer than its threshold, is clear,
-- and the next loss trips it with the time of that loss.
pub record_losses :
    (b : TimedCircuitBreaker) (ts : List (Number × Option Datetime)) (pnl : Number)
    (at : Option Datetime)
    → b.tripped ≡ false
    → b.loss_streak ≡ 0
    → All IsLoss ts
    → IsLoss (pnl, at)
    → length ts + 1 ≡ b.consecutive_loss_threshold
    → ((record_all b ts).tripped ≡ false)
      × ((record_trade (record_all b ts) pnl at).tripped ≡ true)
      × ((record_trade (record_all b ts) pnl at).tripped_at ≡ at)
unfolding record_trade record_loss
record_losses b ts pnl at h z l m k = rw (below b ts h l (omega arith)) (ground arith)

-- Results that are integers are ignored as NaN and infinities are, losses too: `_is_finite` asks for
-- a `float`.
pub record_trade_int :
    (b : TimedCircuitBreaker) (i : ℤ) (at : Option Datetime) → record_trade b (int i) at ≡ b
unfolding record_trade
record_trade_int b i at = refl
