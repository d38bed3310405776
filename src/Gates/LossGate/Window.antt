-- ===== src/Gates/LossGate/Window.antt =====
-- The rolling history is the end of the full record, and the gate counts the losses in it.

use verdict_risk.State.{RiskDecision}
use verdict_risk.Py.Except.{ok}
use verdict_risk.Py.Number.{Number, is_finite_number, is_negative}
use verdict_risk.Prelude.{
  if◌then◌else◌, Bool-cases, length, drop, length-append, length-drop, ℤ, ℕ, zero, suc, ◌+◌, ◌-◌,
  ◌≤◌, ◌<◌, ◌≡◌, refl, ap, ◌∙◌, ◌↔◌, ◌⊎◌, inl, inr, Bool, true, false, List, [], ◌∷◌, ◌++◌, arith,
}
use mathlib.Core.List.{append-nil, append_assoc}
use verdict_risk.Gates.LossGate.{
  ConsecutiveLossGate, init, last_trades, record_trade, count_true, check, reset,
}

-- What is recorded of a list of results: a loss or not, for each float that is finite.
abbrev pub losses_of : List Number → List Bool
losses_of [] = []
losses_of (p ∷ ps) =
    let rest = losses_of ps in if is_finite_number p then is_negative p ∷ rest else rest

pub record_all : ConsecutiveLossGate → List Number → ConsecutiveLossGate
record_all gate [] = gate
record_all gate (p ∷ ps) = record_all (record_trade gate p) ps

pub record_all-nil : (gate : ConsecutiveLossGate) → record_all gate [] ≡ gate
unfolding record_all
record_all-nil gate = refl

pub record_all-append :
    (gate : ConsecutiveLossGate) (ps : List Number) (p : Number)
    → record_all gate (ps ++ (p ∷ [])) ≡ record_trade (record_all gate ps) p
unfolding record_all
record_all-append gate [] p = refl
record_all-append gate (q ∷ ps) p = record_all-append (record_trade gate q) ps p

reset-record_trade :
    (gate : ConsecutiveLossGate) (p : Number) → reset (record_trade gate p) ≡ reset gate
unfolding record_trade reset
reset-record_trade gate p = ground arith

-- A reset undoes what was recorded on a gate with an empty history.
pub reset-record_all :
    (gate : ConsecutiveLossGate) (ps : List Number)
    → reset gate ≡ gate
    → reset (record_all gate ps) ≡ record_all gate []
unfolding record_all
reset-record_all gate ps e = undone gate ps ∙ e
  where
    undone : (g : ConsecutiveLossGate) (ps : List Number) → reset (record_all g ps) ≡ reset g
    undone g [] = refl
    undone g (p ∷ ps) = undone (record_trade g p) ps ∙ reset-record_trade g p

drop_more : (n : ℕ) (xs ys : List Bool) → n ≤ length xs → drop n (xs ++ ys) ≡ drop n xs ++ ys
drop_more zero xs ys h = refl
drop_more (suc n) [] ys h = elim h [ ]
drop_more (suc n) (x ∷ xs) ys h = drop_more n xs ys (omega arith)

drop_nil : (n : ℕ) → drop {A = Bool} n [] ≡ []
drop_nil zero = refl
drop_nil (suc n) = refl

drop-drop : (m n k : ℕ) (xs : List Bool) → k ≡ n + m → drop m (drop n xs) ≡ drop k xs
drop-drop m zero k xs e = ap (λ j. drop j xs) (omega arith)
drop-drop m (suc n) zero xs e = absurd (omega arith)
drop-drop m (suc n) (suc k) [] e = drop_nil m
drop-drop m (suc n) (suc k) (x ∷ xs) e = drop-drop m n k xs (omega arith)

pub length-last_trades :
    (w : ℕ) (xs : List Bool) → length (last_trades w xs) ≡ length xs - (length xs - w)
unfolding last_trades
length-last_trades w xs = length-drop (length xs - w) xs

-- Only the last `w` matter of what stands in front.
last_trades-append :
    (w : ℕ) (xs ys : List Bool) → last_trades w (last_trades w xs ++ ys) ≡ last_trades w (xs ++ ys)
unfolding last_trades
last_trades-append w xs ys =
    let k = length xs - w in
    rw (← drop_more k xs ys (omega arith)) (
      drop-drop (length (drop k (xs ++ ys)) - w) k (length (xs ++ ys) - w) (xs ++ ys)
        (omega (arith, length-drop k (xs ++ ys), length-append xs ys)))

drop_none : (k : ℕ) (xs : List Bool) → k ≡ 0 → drop k xs ≡ xs
drop_none zero xs e = refl
drop_none (suc k) xs e = absurd (omega arith)

last_trades-short : (w : ℕ) (xs : List Bool) → length xs ≤ w → last_trades w xs ≡ xs
unfolding last_trades
last_trades-short w xs h = drop_none (length xs - w) xs (omega arith)

record_trade-history :
    (gate : ConsecutiveLossGate) (p : Number)
    → is_finite_number p ≡ true
    → (record_trade gate p).history
      ≡ last_trades gate.window_trades (gate.history ++ (is_negative p ∷ []))
unfolding record_trade
record_trade-history gate p h =
    let longer = gate.history ++ (is_negative p ∷ []) in
    ground (arith, last_trades-short gate.window_trades longer)

record_trade-limits :
    (gate : ConsecutiveLossGate) (p : Number)
    → ((record_trade gate p).window_trades ≡ gate.window_trades)
      × ((record_trade gate p).max_losses ≡ gate.max_losses)
unfolding record_trade
record_trade-limits gate p = ground arith

record_trade-ignored :
    (gate : ConsecutiveLossGate) (p : Number)
    → is_finite_number p ≡ false
    → record_trade gate p ≡ gate
unfolding record_trade
record_trade-ignored gate p h = rw h

record_trade-last :
    (w : ℕ) (gate : ConsecutiveLossGate) (seen : List Bool) (p : Number)
    → gate.window_trades ≡ w
    → gate.history ≡ last_trades w seen
    → is_finite_number p ≡ true
    → (record_trade gate p).history ≡ last_trades w (seen ++ (is_negative p ∷ []))
record_trade-last w gate seen p g h f =
    record_trade-history gate p f ∙ rw (g, h) (last_trades-append w seen (is_negative p ∷ []))

record_all-last :
    (w : ℕ) (gate : ConsecutiveLossGate) (seen : List Bool) (ps : List Number)
    → gate.window_trades ≡ w
    → gate.history ≡ last_trades w seen
    → (record_all gate ps).history ≡ last_trades w (seen ++ losses_of ps)
unfolding record_all
record_all-last w gate seen [] g h = rw append-nil h
record_all-last w gate seen (p ∷ ps) g h = elim (Bool-cases (is_finite_number p)) [
  | inl fits ↦
      rw (fits, ← append_assoc seen (is_negative p ∷ []) (losses_of ps))
        (record_all-last w (record_trade gate p) (seen ++ (is_negative p ∷ [])) ps
          ((record_trade-limits gate p).0 ∙ g) (record_trade-last w gate seen p g h fits))
  | inr other ↦ rw other (
      ap (λ (g' : ConsecutiveLossGate). (record_all g' ps).history)
        (record_trade-ignored gate p other)
      ∙ record_all-last w gate seen ps g h)
]

record_all-limits :
    (gate : ConsecutiveLossGate) (ps : List Number)
    → ((record_all gate ps).window_trades ≡ gate.window_trades)
      × ((record_all gate ps).max_losses ≡ gate.max_losses)
unfolding record_all
record_all-limits gate [] = (refl, refl)
record_all-limits gate (p ∷ ps) =
    ground (arith, record_all-limits (record_trade gate p) ps, record_trade-limits gate p)

-- After any results, a gate that was new holds, for the last window_trades of the results that are
-- finite floats, whether each was a loss; integers, NaN and infinities leave no trace.
pub record_all-history :
    (max_losses window : ℤ) (gate : ConsecutiveLossGate) (ps : List Number)
    → init max_losses window ≡ ok gate
    → (record_all gate ps).history ≡ last_trades gate.window_trades (losses_of ps)
unfolding init last_trades
record_all-history max_losses window gate ps e =
    record_all-last gate.window_trades gate [] ps refl (ground arith)

-- After any results, a gate that was new lets a trade through exactly when fewer finite float
-- results than the window were recorded, or at most max_losses of the last window_trades of them
-- are losses, in whatever order.
pub check-record_all_iff :
    (max_losses window : ℤ) (gate : ConsecutiveLossGate) (ps : List Number) (d : RiskDecision)
    → init max_losses window ≡ ok gate
    → (check (record_all gate ps) d ≡ (d, true)) ↔ (
        (length (losses_of ps) < gate.window_trades)
        ⊎ (count_true (last_trades gate.window_trades (losses_of ps)) ≤ gate.max_losses))
unfolding check
check-record_all_iff max_losses window gate ps d e =
    let all = losses_of ps in
    rw (record_all-history max_losses window gate ps e)
      (ground (arith, record_all-limits gate ps, length-last_trades gate.window_trades all))

count_true-le : (xs : List Bool) → count_true xs ≤ length xs
count_true-le [] = omega arith
count_true-le (true ∷ xs) = omega (arith, count_true-le xs)
count_true-le (false ∷ xs) = omega (arith, count_true-le xs)

-- The constructor allows max_losses to equal window_trades, and such a gate never rejects: after
-- any results, it lets every trade through.
pub check_inert :
    (n : ℤ) (gate : ConsecutiveLossGate) (ps : List Number) (d : RiskDecision)
    → init n n ≡ ok gate
    → check (record_all gate ps) d ≡ (d, true)
unfolding init
check_inert n gate ps d e =
    let last = last_trades gate.window_trades (losses_of ps) in
    (check-record_all_iff n n gate ps d e).1 (
      inr (
        same_limits (
          omega (arith, count_true-le last, length-last_trades gate.window_trades (losses_of ps)))))
  where
    same_limits :
        (count_true (last_trades gate.window_trades (losses_of ps)) ≤ gate.window_trades)
        → (count_true (last_trades gate.window_trades (losses_of ps)) ≤ gate.max_losses)
    same_limits h = ground arith
