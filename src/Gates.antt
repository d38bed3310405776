-- ===== src/Gates.antt =====
-- src/trade_risk_engine/gates.py, a module for each gate.
pub mod Verdict
pub mod Drawdown
pub mod Concentration
pub mod ExpectedValue
pub mod ClusterCap
pub mod LossWindow
pub mod KillSwitch
pub mod TimedBreaker
pub mod LossGate
pub mod Answers
pub mod Pass
