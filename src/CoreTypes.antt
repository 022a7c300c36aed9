-- ===== src/CoreTypes.antt =====
-- The shared domain types of crates/core_types/src/lib.rs: enumerations, the compiled strategy,
-- intents and broker updates, and the status and readiness reports.
pub mod Modes
pub mod Strategy
pub mod Orders
pub mod Status
pub use Modes.*
pub use Strategy.*
pub use Orders.*
pub use Status.*
unfoldable pub use Status.{has_blocking_issues, is_ready_without_override}
