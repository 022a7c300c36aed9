-- ===== src/Lib.antt =====
-- TV Bot Core: the core of a futures trading runtime (crates/ of the repository), and what is proved
-- of it.
--
-- A strategy is a set of rules. The strategy runtime (crates/strategy_runtime) compiles them, with
-- the conditions that the rule engine (crates/rule_engine) reads from their text, and decides on
-- each market snapshot: the rule engine evaluates the conditions over bars with the indicators
-- (crates/indicators), and the runtime asks for an entry, an exit, a flattening or a pause. Such an
-- intent, or a manual command, is an `ExecutionIntent`. The risk engine
-- (crates/risk_engine) sizes it and holds it against the strategy's limits and the broker's
-- protections; the execution engine (crates/execution_engine) plans the broker actions for the
-- intent that the risk engine passes on; the broker adapter (crates/broker_tradovate) checks and
-- sends them. Whether orders may be sent at all is decided by the runtime kernel
-- (crates/runtime_kernel): its state machine holds the mode, the arming and the warmup, and it arms
-- only on a readiness report that its evaluator builds from the state of every dependency.
--
-- Files:
--   Base              names of the libraries passed on, Boolean tests, lists, `Result`, integers, and
--                     the `str` operations that the program calls (trim, ASCII case, prefix, digits).
--   External          what the program takes from rust_decimal, chrono, serde_json and secrecy: the
--                     types and operations are parameters. The order of decimals is total, where a
--                     theorem takes that as a hypothesis; no other law is assumed. A decimal operation
--                     that overflows aborts the process; the model is of the runs where none does.
--   CoreTypes         crates/core_types/src/lib.rs: enumerations (Modes), the compiled strategy
--                     (Strategy), intents and broker updates (Orders), broker status, readiness
--                     report and journal record (Status). A record's fields are the struct's.
--   Indicators        crates/indicators/src/lib.rs. Series proves which bars are accepted, Extremes
--                     what the extremes are.
--   RuleEngine        crates/rule_engine. Conditions holds the types of src/lib.rs, Parse the parser
--                     of src/parser.rs, Evaluate, Trends, Checks and Dispatch the conditions of
--                     src/eval.rs, SignalPlan its signal plans; Parsed, Bars, Sufficient, Evaluates,
--                     Signals and Plans prove. A `BTreeMap` is a list of its entries. A sum of usize
--                     wraps around.
--   StrategyRuntime   crates/strategy_runtime/src/lib.rs. Definition holds the types, Compile the
--                     compiler, Session the trade window and the warmup buffers, Signals the signal
--                     of each side, Intents and Engine the decision. `evaluate` returns the state
--                     that it leaves. Windows, Entries, Exits, Repeats, Compiled, Ready and Warm
--                     prove.
--   InstrumentResolver  crates/instrument_resolver/src/lib.rs: the resolver, for any provider of
--                     contract chains, whose calls and clock are arguments. FrontMonth proves.
--   Sample            the concrete data of the tests.
--   RiskEngine        crates/risk_engine/src/lib.rs. Sizing holds the request and the entry quantity,
--                     Protection what the broker cannot protect, Evaluate the gate itself; Bounds,
--                     Override and Gate prove. Vectors passed by `&mut` are passed in and returned.
--   BrokerTradovate   crates/broker_tradovate: Orders holds the order types of src/execution.rs and
--                     their validation. Of src/lib.rs, Session holds the data, Config the
--                     configuration and the free functions, Sync what a snapshot or an event does
--                     to the session, Manager and Execution the async methods, Status the reports.
--                     The traits are one record of operations on a world (Apis), and a method is a
--                     function of the session's state and the world, whose error keeps the state
--                     so far; nothing is assumed of what the broker answers. Preserves, Invariant,
--                     Calls, Review and Selection prove.
--   ExecutionEngine   crates/execution_engine/src/lib.rs. Request holds the types and helpers, Entry
--                     the orders and brackets of an entry, Planner the planner, Dispatch what sends
--                     a plan through the session; Guards, Brackets, Accepted, Positions, Exposure
--                     and Reports prove.
--   RuntimeKernel     crates/runtime_kernel/src/lib.rs. StateMachine and Readiness hold the
--                     state machine and the readiness checks, Pipeline the audited way from an
--                     intent over the risk engine and the journal (crates/journal) to the broker;
--                     Invariant, Arming and Audited prove. A method on `&mut self` returns
--                     the new machine, with a result if it can fail.
--
-- Numbers: u32 and u64 are natural numbers, i32 and i64 integers; the saturating sums (a u32 in
-- a direct reversal, the u64 count of reconnects), the usize sums of the rule engine and the
-- 32-bit cast of the required bars are written out, and no other operation here can leave its
-- range. No function takes fuel but the printing of a number, whose 64 rounds cover every u64.
--
-- Not modelled: the journals behind the interface; market data, the strategy loader, the
-- built-in contract chains, the state store and the host; HTTP, WebSocket, SQL and terminal
-- code, which is I/O. Log lines are left out.
pub mod Base
pub mod External
pub mod CoreTypes
pub mod Indicators
pub mod RuleEngine
pub mod StrategyRuntime
pub mod InstrumentResolver
pub mod Sample
pub mod RiskEngine
pub mod BrokerTradovate
pub mod ExecutionEngine
pub mod RuntimeKernel
