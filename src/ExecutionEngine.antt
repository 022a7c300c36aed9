-- ===== src/ExecutionEngine.antt =====
-- crates/execution_engine/src/lib.rs: from an intent to the broker actions that carry it out.
pub mod Request
pub mod Entry
pub mod Planner
pub mod Dispatch
pub mod Reports
pub mod Guards
pub mod Brackets
pub mod Accepted
pub mod Positions
pub mod Exposure
mod Tests
