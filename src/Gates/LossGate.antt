-- ===== src/Gates/LossGate.antt =====
-- `ConsecutiveLossGate`: the losses among the last trades.
pub mod Window
use verdict_risk.Prelude.{
  ltb, if◌then◌else◌, length, drop, ℤ, pos_part, ltb_ℤ, pos, ℕ, ◌+◌, ◌-◌, Bool, true, not, List, [],
  ◌∷◌, ◌++◌,
}
use verdict_risk.Py.Except.{Result, ◌>>=◌, ◌>>◌, raise_if, value_error, ok}
use verdict_risk.Py.Format.{join, str_nat}
use verdict_risk.Py.Number.{Number, is_finite_number, is_negative}
use verdict_risk.State.{RiskDecision, ConsecutiveLossGateState, loss_gate_state_init}
use verdict_risk.Gates.Verdict.{rejected}

pub record ConsecutiveLossGate : Type 0 where
  pub max_losses : ℕ
  pub window_trades : ℕ
  pub history : List Bool

-- `__init__`
unfoldable pub init : ℤ → ℤ → Result ConsecutiveLossGate
init max_losses window_trades = do
  raise_if (ltb_ℤ max_losses (pos 1)) (value_error "max_losses must be >= 1")
  raise_if (ltb_ℤ window_trades (pos 1)) (value_error "window_trades must be >= 1")
  raise_if (ltb_ℤ window_trades max_losses) (value_error "max_losses cannot exceed window_trades")
  ok (record {
    max_losses = pos_part max_losses;
    window_trades = pos_part window_trades;
    history = [];
  })

-- `history[-n:]` of a list longer than `n`
unfoldable pub last_trades : ℕ → List Bool → List Bool
last_trades n history = drop (length history - n) history

-- `record`
unfoldable pub record_trade : ConsecutiveLossGate → Number → ConsecutiveLossGate
unfolding last_trades is_finite_number
record_trade gate pnl =
    if not (is_finite_number pnl)
    then gate
    else let history = gate.history ++ (is_negative pnl ∷ []) in
      if ltb gate.window_trades (length history)
      then record gate { history = last_trades gate.window_trades history }
      else record gate { history = history }

-- `sum(history)`
abbrev pub count_true : List Bool → ℕ
count_true [] = 0
count_true (b ∷ rest) = (if b then 1 else 0) + count_true rest

unfoldable pub check : ConsecutiveLossGate → RiskDecision → RiskDecision × Bool
check gate decision =
    if ltb (length gate.history) gate.window_trades
    then (decision, true)
    else if ltb gate.max_losses (count_true gate.history)
    then rejected decision (
        join (
          "ERR_CONSECUTIVE_LOSS_GATE: "
          ∷ str_nat (count_true gate.history)
          ∷ " losses in last "
          ∷ str_nat gate.window_trades
          ∷ " trades (limit "
          ∷ str_nat gate.max_losses
          ∷ ")"
          ∷ []))
    else (decision, true)

unfoldable pub reset : ConsecutiveLossGate → ConsecutiveLossGate
reset gate = record gate { history = [] }

unfoldable pub to_state : ConsecutiveLossGate → Result ConsecutiveLossGateState
unfolding loss_gate_state_init
to_state gate = loss_gate_state_init (pos gate.max_losses) (pos gate.window_trades) gate.history

unfoldable pub from_state : ConsecutiveLossGateState → Result ConsecutiveLossGate
unfolding init
from_state state = do
  gate ← init (pos state.max_losses) (pos state.window_trades)
  ok (record gate { history = state.history })
