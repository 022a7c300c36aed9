-- ===== src/StrategyRuntime.antt =====
-- crates/strategy_runtime: compiling a strategy's rules, and deciding on each market snapshot.
pub mod Definition
pub mod Compile
pub mod Session
pub mod Signals
pub mod Intents
pub mod Engine
pub mod Windows
pub mod Entries
pub mod Repeats
pub mod Compiled
pub mod Ready
pub mod Warm
pub mod Exits
mod Tests
