-- ===== src/BrokerTradovate.antt =====
-- crates/broker_tradovate: the orders that the execution planner hands to the broker, and the
-- session with the broker.
pub mod Orders
pub mod Session
pub mod Apis
pub mod Config
pub mod Sync
pub mod Manager
pub mod Status
pub mod Execution
pub mod Preserves
pub mod Invariant
pub mod Calls
pub mod Review
pub mod Selection
pub mod Scripted
mod Tests
