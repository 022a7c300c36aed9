-- ===== src/RuleEngine/Conditions.antt =====
-- The types of crates/rule_engine/src/lib.rs.
use tv_bot_core.Base.{ℕ, ◌+◌, ◌%◌, ◌^◌, max, Bool, Option, List, String}
use tv_bot_core.External.{Externals}
use tv_bot_core.CoreTypes.{Timeframe, BrokerPositionSnapshot, SignalCombinationMode}
use tv_bot_core.Indicators.{BarInput}

pub data EvaluationSide : Type 0 where
  long short : EvaluationSide

-- `EvaluationSide::label`
abbrev pub label : EvaluationSide → String
label EvaluationSide.long = "long"
label EvaluationSide.short = "short"

pub record TrendParams : Type 0 where
  pub timeframe : Timeframe
  pub fast_period : ℕ  -- usize
  pub slow_period : ℕ  -- usize

pub record BreakoutParams : Type 0 where
  pub timeframe : Timeframe
  pub lookback : ℕ  -- usize

pub record PullbackParams : Type 0 where
  pub timeframe : Timeframe
  pub fast_period : ℕ  -- usize
  pub slow_period : ℕ  -- usize

pub record SmaParams : Type 0 where
  pub timeframe : Timeframe
  pub period : ℕ  -- usize

pub record SmaCrossParams : Type 0 where
  pub timeframe : Timeframe
  pub fast_period : ℕ  -- usize
  pub slow_period : ℕ  -- usize

pub data RuleEngineError : Type 0 where
  unknown_condition : (condition : String) → RuleEngineError
  malformed_condition : (condition detail : String) → RuleEngineError
  invalid_parameter : (condition parameter detail : String) → RuleEngineError
  missing_bars : (timeframe : Timeframe) → RuleEngineError
  insufficient_bars :
      (condition : String) (timeframe : Timeframe) (needed available : ℕ) → RuleEngineError
  empty_series : (condition : String) (timeframe : Timeframe) → RuleEngineError

-- A sum in `usize`, which wraps around in a release build.
abbrev pub usize_add : ℕ → ℕ → ℕ
usize_add a b = (a + b) % 2 ^ 64

module _ (X : Externals) where
  pub record RejectionParams : Type 0 where
    pub timeframe : Timeframe
    pub wick_ratio : X.Decimal
    pub close_fraction : X.Decimal

  pub record VolumeGateParams : Type 0 where
    pub timeframe : Timeframe
    pub period : ℕ  -- usize
    pub min_ratio : X.Decimal

  pub data ConditionExpression : Type 0 where
    trend_filter trend_up trend_down : TrendParams → ConditionExpression
    breakout_up breakout_down : BreakoutParams → ConditionExpression
    rejection : RejectionParams → ConditionExpression
    volume_gate : VolumeGateParams → ConditionExpression
    pullback_done : PullbackParams → ConditionExpression
    fail_structure regime_invalid : TrendParams → ConditionExpression
    close_above_sma close_below_sma : SmaParams → ConditionExpression
    sma_cross_up sma_cross_down : SmaCrossParams → ConditionExpression

  pub record CompiledCondition : Type 0 where
    pub raw : String
    pub expression : ConditionExpression

  pub record RuleEvaluationContext : Type 0 where
    pub bars_by_timeframe : List (Timeframe × List (BarInput X))
    pub now : X.DateTime
    pub position : Option (BrokerPositionSnapshot X)

  pub record ConditionEvaluation : Type 0 where
    pub raw : String
    pub passed : Bool
    pub score : X.Decimal
    pub rationale : String

  pub record RuleSetEvaluation : Type 0 where
    pub matched : Bool
    pub matched_conditions : ℕ
    pub total_conditions : ℕ
    pub score : X.Decimal
    pub details : List ConditionEvaluation
    pub blocking_reason : Option String

  pub record SignalPlan : Type 0 where
    pub mode : SignalCombinationMode
    pub primary : List CompiledCondition
    pub secondary : List CompiledCondition
    pub n_required : Option ℕ  -- u32
    pub score_threshold : Option X.Decimal
    pub regime_filter : Option CompiledCondition
    pub sequence : List CompiledCondition

module _ {X : Externals} where
  -- `ConditionExpression::timeframe`
  unfoldable pub timeframe_of : ConditionExpression X → Timeframe
  timeframe_of (ConditionExpression.trend_filter params) = params.timeframe
  timeframe_of (ConditionExpression.trend_up params) = params.timeframe
  timeframe_of (ConditionExpression.trend_down params) = params.timeframe
  timeframe_of (ConditionExpression.breakout_up params) = params.timeframe
  timeframe_of (ConditionExpression.breakout_down params) = params.timeframe
  timeframe_of (ConditionExpression.rejection params) = params.timeframe
  timeframe_of (ConditionExpression.volume_gate params) = params.timeframe
  timeframe_of (ConditionExpression.pullback_done params) = params.timeframe
  timeframe_of (ConditionExpression.fail_structure params) = params.timeframe
  timeframe_of (ConditionExpression.regime_invalid params) = params.timeframe
  timeframe_of (ConditionExpression.close_above_sma params) = params.timeframe
  timeframe_of (ConditionExpression.close_below_sma params) = params.timeframe
  timeframe_of (ConditionExpression.sma_cross_up params) = params.timeframe
  timeframe_of (ConditionExpression.sma_cross_down params) = params.timeframe

  -- `ConditionExpression::required_bars`
  unfoldable pub required_bars : ConditionExpression X → ℕ
  required_bars (ConditionExpression.trend_filter params) = params.slow_period
  required_bars (ConditionExpression.trend_up params) = params.slow_period
  required_bars (ConditionExpression.trend_down params) = params.slow_period
  required_bars (ConditionExpression.breakout_up params) = usize_add params.lookback 1
  required_bars (ConditionExpression.breakout_down params) = usize_add params.lookback 1
  required_bars (ConditionExpression.rejection params) = 1
  required_bars (ConditionExpression.volume_gate params) = usize_add params.period 1
  required_bars (ConditionExpression.pullback_done params) =
      max params.fast_period params.slow_period
  required_bars (ConditionExpression.fail_structure params) = params.slow_period
  required_bars (ConditionExpression.regime_invalid params) = params.slow_period
  required_bars (ConditionExpression.close_above_sma params) = params.period
  required_bars (ConditionExpression.close_below_sma params) = params.period
  required_bars (ConditionExpression.sma_cross_up params) = usize_add params.slow_period 1
  required_bars (ConditionExpression.sma_cross_down params) = usize_add params.slow_period 1
