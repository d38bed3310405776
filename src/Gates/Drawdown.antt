-- ===== src/Gates/Drawdown.antt =====
-- `evaluate_drawdown`: today's loss as a share of the equity.
use verdict_risk.Prelude.{if◌then◌else◌, ◌||◌, [], ◌∷◌}
use verdict_risk.Py.Except.{◌>>=◌}
use verdict_risk.Py.Float.{Float, is_nan, is_inf, lt, le, neg, div, zero_float}
use verdict_risk.Py.Format.{join, percent}
use verdict_risk.State.{RiskContext, RiskDecision}
use verdict_risk.Gates.Verdict.{Verdict, reject, pass}

-- From the quotient on.
unfoldable pub compare_drawdown : RiskContext → RiskDecision → Float → Verdict
compare_drawdown ctx decision drawdown_pct =
    if lt drawdown_pct (neg ctx.max_daily_drawdown_pct)
    then reject decision (
        join (
          "ERR_DAILY_DRAWDOWN: "
          ∷ percent drawdown_pct
          ∷ " exceeds limit "
          ∷ percent (neg ctx.max_daily_drawdown_pct)
          ∷ []))
    else pass decision

unfoldable pub evaluate_drawdown : RiskContext → Float → Float → RiskDecision → Verdict
unfolding compare_drawdown
evaluate_drawdown ctx daily_realized_pnl equity decision =
    if is_nan equity
      || is_nan daily_realized_pnl
      || is_inf equity
      || is_inf daily_realized_pnl
      || is_nan ctx.max_daily_drawdown_pct
      || is_inf ctx.max_daily_drawdown_pct
    then reject decision "ERR_INVALID_FLOAT_DRAWDOWN"
    else if le equity zero_float
    then reject decision "ERR_ZERO_OR_NEGATIVE_EQUITY"
    else div daily_realized_pnl equity >>= compare_drawdown ctx decision
