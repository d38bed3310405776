-- ===== src/Tests.antt =====
-- The theorems at concrete inputs, and runs of the whole evaluation.
pub mod Data
mod Stateless
mod Stateful
mod Sessions
mod Stakes
