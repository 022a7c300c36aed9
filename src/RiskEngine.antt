-- ===== src/RiskEngine.antt =====
-- crates/risk_engine/src/lib.rs: the risk gate in front of the execution planner. The values the
-- source passes by `&mut Vec<String>` are passed in and returned.
pub mod Sizing
pub mod Protection
pub mod Evaluate
pub mod Bounds
pub mod Override
pub mod Gate
mod Tests
