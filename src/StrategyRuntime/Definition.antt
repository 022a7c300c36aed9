-- ===== src/StrategyRuntime/Definition.antt =====
-- The types of crates/strategy_runtime/src/lib.rs.
use tv_bot_core.Base.{ℕ, Bool, Option, List, String}
use tv_bot_core.External.{Externals, Weekday}
use tv_bot_core.CoreTypes.{
  Timeframe, FlattenRuleMode, SignalDirection, SignalDecision, ExecutionIntent, WarmupStatus,
  BrokerSyncState, BrokerPositionSnapshot, CompiledStrategy,
}
use tv_bot_core.Indicators.{BarInput}
use tv_bot_core.RuleEngine.Conditions.{CompiledCondition, RuleEngineError, SignalPlan}

pub record StrategyRuntimeState : Type 0 where
  pub long_signal_active : Bool
  pub short_signal_active : Bool
  pub long_exit_active : Bool
  pub short_exit_active : Bool
  pub last_signal_direction : Option SignalDirection

pub data StrategyRuntimeError : Type 0 where
  invalid_timezone : (timezone : String) → StrategyRuntimeError
  invalid_time : (field value : String) → StrategyRuntimeError
  invalid_allowed_day : (value : String) → StrategyRuntimeError
  invalid_entry_conditions : (detail : String) → StrategyRuntimeError
  undeclared_condition_timeframe :
      (condition : String) (timeframe : Timeframe) → StrategyRuntimeError
  insufficient_warmup_bars :
      (condition : String) (timeframe : Timeframe) (required_bars declared_bars : ℕ)
      → StrategyRuntimeError
  rule_engine : (error : RuleEngineError) → StrategyRuntimeError

module _ (X : Externals) where
  pub record RuntimeTradeWindow : Type 0 where
    pub start : X.NaiveTime
    pub end : X.NaiveTime

  pub record RuntimeFlattenRule : Type 0 where
    pub mode : FlattenRuleMode
    pub time : Option X.NaiveTime

  pub record RuntimeSignalPlan : Type 0 where
    pub primary : List (CompiledCondition X)
    pub secondary : List (CompiledCondition X)
    pub n_required : Option ℕ  -- u32
    pub score_threshold : Option X.Decimal
    pub regime_filter : Option (CompiledCondition X)
    pub sequence : List (CompiledCondition X)

  pub record RuntimeEntryConditions : Type 0 where
    pub long : List (CompiledCondition X)
    pub short : List (CompiledCondition X)

  pub record RuntimeStrategyDefinition : Type 0 where
    pub strategy : CompiledStrategy X
    pub timezone : X.Tz
    pub trade_window : Option RuntimeTradeWindow
    pub no_new_entries_after : Option X.NaiveTime
    pub flatten_rule : Option RuntimeFlattenRule
    pub allowed_days : List Weekday
    pub signal_plan : RuntimeSignalPlan
    pub entry_conditions : RuntimeEntryConditions
    pub exit_conditions : List (CompiledCondition X)

  pub record StrategyMarketSnapshot : Type 0 where
    pub now : X.DateTime
    pub warmup_status : WarmupStatus
    pub bars_by_timeframe : List (Timeframe × List (BarInput X))
    pub position : Option (BrokerPositionSnapshot X)
    pub market_data_degraded : Bool
    pub broker_sync_state : BrokerSyncState
    pub reconnect_review_required : Bool

  pub record StrategyEvaluation : Type 0 where
    pub signal : SignalDecision X
    pub intent : Option ExecutionIntent

  pub record SideSignalEvaluation : Type 0 where
    pub active : Bool
    pub score : X.Decimal
    pub rationale : List String

-- `RuntimeSignalPlan::as_rule_plan`
abbrev pub as_rule_plan : {X : Externals} → RuntimeSignalPlan X → CompiledStrategy X → SignalPlan X
as_rule_plan plan strategy = record {
  mode = strategy.signal_confirmation.mode;
  primary = plan.primary;
  secondary = plan.secondary;
  n_required = plan.n_required;
  score_threshold = plan.score_threshold;
  regime_filter = plan.regime_filter;
  sequence = plan.sequence;
}
