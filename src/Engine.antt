-- ===== src/Engine.antt =====
-- src/trade_risk_engine/engine.py: `RiskAuthority` and the chain of pure gates. The time
-- that an evaluation takes is an argument.
pub mod Chain
pub mod Tracing
pub mod Authority
