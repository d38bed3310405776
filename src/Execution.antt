-- ===== src/Execution.antt =====
-- src/trade_risk_engine/execution.py: the adapter for paper trading, which takes alerts and refuses orders.
use verdict_risk.Py.Except.{Result, runtime_error, ok, err}
use verdict_risk.Webhook.{RiskEvent}

-- `handle_alert`
unfoldable pub handle_alert : RiskEvent → Result (Unit {0})
handle_alert event = ok tt

-- `submit_order`, whose result type `Never` has no values
unfoldable pub submit_order : {Arguments : Type 0} → Arguments → Result ⊥
submit_order args =
    err (runtime_error "Live order placement is disabled in the paper execution adapter")
