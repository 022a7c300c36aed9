-- ===== src/RuntimeKernel.antt =====
-- crates/runtime_kernel/src/lib.rs: the mode and arming state machine, the readiness checks, and
-- how the two depend on each other.
pub mod StateMachine
pub mod Readiness
pub mod Invariant
pub mod Arming
pub mod Pipeline
pub mod Audited
mod Tests
