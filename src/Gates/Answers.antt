-- ===== src/Gates/Answers.antt =====
-- The pure gates of gates.py raise nothing and change nothing of a decision but the rejection.

use verdict_risk.Py.Except.{Result, ◌>>=◌, ok}
use verdict_risk.Prelude.{String, ◌≡◌, List, arith}
use verdict_risk.Py.Float.{Float, quotient, div_returns, div}
use verdict_risk.State.{RiskContext, Position, RiskDecision}
use verdict_risk.Gates.Verdict.{Answers}
use verdict_risk.Gates.Drawdown.{compare_drawdown, evaluate_drawdown}
use verdict_risk.Gates.Concentration.{evaluate_concentration}
use verdict_risk.Gates.ExpectedValue.{evaluate_expected_value}

pub evaluate_expected_value-Answers :
    (ctx : RiskContext) (ev : Float) (d : RiskDecision)
    → Answers d (evaluate_expected_value ctx ev d)
unfolding evaluate_expected_value
evaluate_expected_value-Answers ctx ev d = ground arith

compare_drawdown-Answers :
    (ctx : RiskContext) (d : RiskDecision) (v : Result Float) (q : Float)
    → v ≡ ok q
    → Answers d (v >>= compare_drawdown ctx d)
unfolding compare_drawdown
compare_drawdown-Answers ctx d v q e = rw e (ground arith)

-- The drawdown gate raises nothing, also where it divides: it lets the trade through and leaves
-- the decision alone, or it rejects and keeps the size.
pub evaluate_drawdown-Answers :
    (ctx : RiskContext) (pnl equity : Float) (d : RiskDecision)
    → Answers d (evaluate_drawdown ctx pnl equity d)
unfolding evaluate_drawdown
evaluate_drawdown-Answers ctx pnl equity d = ground (
  arith,
  div_returns pnl equity,
  compare_drawdown-Answers ctx d (div pnl equity) (quotient pnl equity),
)

-- The concentration gate raises nothing: it lets the trade through and leaves the decision alone,
-- or it rejects and keeps the size.
pub evaluate_concentration-Answers :
    (ctx : RiskContext) (family : String) (cost : Float) (ps : List Position) (d : RiskDecision)
    → Answers d (evaluate_concentration ctx family cost ps d)
unfolding evaluate_concentration
evaluate_concentration-Answers ctx family cost ps d = ground arith
