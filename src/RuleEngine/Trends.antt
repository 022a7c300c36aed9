-- ===== src/RuleEngine/Trends.antt =====
-- crates/rule_engine/src/eval.rs: the evaluation of one condition over the averages of its bars.
use tv_bot_core.Indicators.{latest_bar, simple_moving_average}
use tv_bot_core.Base.{◌&&◌, ok, ◌>>=◌, [], ◌∷◌, format, ◌||◌, if◌then◌else◌, String, Bool, Result}
use tv_bot_core.External.{Externals, decimal_lt}
use tv_bot_core.RuleEngine.Conditions.{
  EvaluationSide, TrendParams, SmaParams, RuleEngineError, CompiledCondition, RuleEvaluationContext,
  ConditionEvaluation,
}
use tv_bot_core.RuleEngine.Evaluate.{for_condition, condition_result, bars_for}

-- `if test { word } else { "not " word }`
abbrev pub is_word : Bool → String → String
is_word test word = if test then word else format ("not " ∷ word ∷ [])

module _ (X : Externals) where
  abbrev pub show : X.Decimal → String
  show d = X.decimal_display d

  abbrev pub Evaluation : Type 0
  Evaluation = Result RuleEngineError (ConditionEvaluation X)

  -- Long positions lose their structure below the averages, short ones above.
  abbrev structure_failed : EvaluationSide → X.Decimal → X.Decimal → X.Decimal → Bool
  structure_failed EvaluationSide.long fast slow close =
      decimal_lt X close slow || decimal_lt X fast slow
  structure_failed EvaluationSide.short fast slow close =
      decimal_lt X slow close || decimal_lt X slow fast

module _ {X : Externals} where
  open X use {decimal_le}

  unfoldable pub trend_up :
      CompiledCondition X → TrendParams → RuleEvaluationContext X → Evaluation X
  unfolding bars_for condition_result
  trend_up condition params context = do
    bars ← bars_for condition params.timeframe context
    fast ←
        for_condition condition params.timeframe (simple_moving_average X bars params.fast_period)
    slow ←
        for_condition condition params.timeframe (simple_moving_average X bars params.slow_period)
    latest ← for_condition condition params.timeframe (latest_bar bars)
    let close = latest.close
    ok (
        condition_result condition (decimal_lt X slow fast && decimal_lt X slow latest.close) (
          format (
            "fast SMA "
            ∷ show X fast
            ∷ " is "
            ∷ is_word (decimal_lt X slow fast) "above"
            ∷ " slow SMA "
            ∷ show X slow
            ∷ " and close "
            ∷ show X close
            ∷ " is "
            ∷ is_word (decimal_lt X slow latest.close) "above"
            ∷ " slow SMA"
            ∷ [])))

  unfoldable pub trend_down :
      CompiledCondition X → TrendParams → RuleEvaluationContext X → Evaluation X
  unfolding bars_for condition_result
  trend_down condition params context = do
    bars ← bars_for condition params.timeframe context
    fast ←
        for_condition condition params.timeframe (simple_moving_average X bars params.fast_period)
    slow ←
        for_condition condition params.timeframe (simple_moving_average X bars params.slow_period)
    latest ← for_condition condition params.timeframe (latest_bar bars)
    let close = latest.close
    ok (
        condition_result condition (decimal_lt X fast slow && decimal_lt X latest.close slow) (
          format (
            "fast SMA "
            ∷ show X fast
            ∷ " is "
            ∷ is_word (decimal_lt X fast slow) "below"
            ∷ " slow SMA "
            ∷ show X slow
            ∷ " and close "
            ∷ show X close
            ∷ " is "
            ∷ is_word (decimal_lt X latest.close slow) "below"
            ∷ " slow SMA"
            ∷ [])))

  unfoldable pub trend_filter :
      CompiledCondition X → TrendParams → EvaluationSide → RuleEvaluationContext X → Evaluation X
  unfolding trend_up trend_down
  trend_filter condition params EvaluationSide.long context = trend_up condition params context
  trend_filter condition params EvaluationSide.short context = trend_down condition params context

  unfoldable pub fail_structure :
      CompiledCondition X → TrendParams → EvaluationSide → RuleEvaluationContext X → Evaluation X
  unfolding bars_for condition_result
  fail_structure condition params side context = do
    bars ← bars_for condition params.timeframe context
    fast ←
        for_condition condition params.timeframe (simple_moving_average X bars params.fast_period)
    slow ←
        for_condition condition params.timeframe (simple_moving_average X bars params.slow_period)
    latest ← for_condition condition params.timeframe (latest_bar bars)
    ok (
        condition_result condition (structure_failed X side fast slow latest.close) (
          format (
            "structure check with fast SMA "
            ∷ show X fast
            ∷ ", slow SMA "
            ∷ show X slow
            ∷ ", close "
            ∷ show X latest.close
            ∷ [])))

  unfoldable pub close_above_sma :
      CompiledCondition X → SmaParams → RuleEvaluationContext X → Evaluation X
  unfolding bars_for condition_result
  close_above_sma condition params context = do
    bars ← bars_for condition params.timeframe context
    average ← for_condition condition params.timeframe (simple_moving_average X bars params.period)
    latest ← for_condition condition params.timeframe (latest_bar bars)
    let passed = decimal_lt X average latest.close
    ok (
        condition_result condition passed (
          format (
            "close "
            ∷ show X latest.close
            ∷ " is "
            ∷ is_word passed "above"
            ∷ " SMA "
            ∷ show X average
            ∷ [])))

  unfoldable pub close_below_sma :
      CompiledCondition X → SmaParams → RuleEvaluationContext X → Evaluation X
  unfolding bars_for condition_result
  close_below_sma condition params context = do
    bars ← bars_for condition params.timeframe context
    average ← for_condition condition params.timeframe (simple_moving_average X bars params.period)
    latest ← for_condition condition params.timeframe (latest_bar bars)
    let passed = decimal_lt X latest.close average
    ok (
        condition_result condition passed (
          format (
            "close "
            ∷ show X latest.close
            ∷ " is "
            ∷ is_word passed "below"
            ∷ " SMA "
            ∷ show X average
            ∷ [])))
