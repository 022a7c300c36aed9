-- ===== src/RuleEngine.antt =====
-- crates/rule_engine: the built-in rule conditions, their text and their evaluation over bars.
pub mod Conditions
pub mod Parse
pub mod Evaluate
pub mod Trends
pub mod Checks
pub mod Dispatch
pub mod SignalPlan
pub mod Parsed
pub mod Bars
pub mod Sufficient
pub mod Evaluates
pub mod Signals
pub mod Plans
mod Tests
