-- ===== src/RuleEngine/Dispatch.antt =====
-- crates/rule_engine/src/eval.rs: the crossings of two averages, and the choice by the condition.
use tv_bot_core.Indicators.{simple_moving_average}
use tv_bot_core.Base.{err, [], ◌∷◌, format, ◌&&◌, ok, ◌>>◌, ◌>>=◌}
use tv_bot_core.External.{Externals, decimal_lt}
use tv_bot_core.RuleEngine.Conditions.{
  EvaluationSide, label, SmaCrossParams, ConditionExpression, CompiledCondition,
  RuleEvaluationContext,
}
use tv_bot_core.RuleEngine.Evaluate.{
  for_condition, previous_bars, longer_than, condition_result, bars_for,
}
use tv_bot_core.RuleEngine.Checks.{
  pullback_done, volume_gate, rejection, breakout_down, breakout_up,
}
use tv_bot_core.RuleEngine.Trends.{
  close_below_sma, close_above_sma, fail_structure, trend_down, trend_up, trend_filter, show,
  Evaluation,
}

module _ {X : Externals} where
  open X use {Decimal, decimal_le}

  unfoldable pub sma_cross_up :
      CompiledCondition X → SmaCrossParams → RuleEvaluationContext X → Evaluation X
  unfolding bars_for condition_result
  sma_cross_up condition params context = do
    bars ← bars_for condition params.timeframe context
    longer_than condition params.timeframe bars params.slow_period
    let previous = previous_bars bars
    previous_fast ←
        for_condition condition params.timeframe
          (simple_moving_average X previous params.fast_period)
    previous_slow ←
        for_condition condition params.timeframe
          (simple_moving_average X previous params.slow_period)
    current_fast ←
        for_condition condition params.timeframe (simple_moving_average X bars params.fast_period)
    current_slow ←
        for_condition condition params.timeframe (simple_moving_average X bars params.slow_period)
    ok (
        condition_result condition
          (decimal_le previous_fast previous_slow && decimal_lt X current_slow current_fast)
          (format (
            "SMA cross up with previous fast "
            ∷ show X previous_fast
            ∷ ", previous slow "
            ∷ show X previous_slow
            ∷ ", current fast "
            ∷ show X current_fast
            ∷ ", current slow "
            ∷ show X current_slow
            ∷ [])))

  unfoldable pub sma_cross_down :
      CompiledCondition X → SmaCrossParams → RuleEvaluationContext X → Evaluation X
  unfolding bars_for condition_result
  sma_cross_down condition params context = do
    bars ← bars_for condition params.timeframe context
    longer_than condition params.timeframe bars params.slow_period
    let previous = previous_bars bars
    previous_fast ←
        for_condition condition params.timeframe
          (simple_moving_average X previous params.fast_period)
    previous_slow ←
        for_condition condition params.timeframe
          (simple_moving_average X previous params.slow_period)
    current_fast ←
        for_condition condition params.timeframe (simple_moving_average X bars params.fast_period)
    current_slow ←
        for_condition condition params.timeframe (simple_moving_average X bars params.slow_period)
    ok (
        condition_result condition
          (decimal_le previous_slow previous_fast && decimal_lt X current_fast current_slow)
          (format (
            "SMA cross down with previous fast "
            ∷ show X previous_fast
            ∷ ", previous slow "
            ∷ show X previous_slow
            ∷ ", current fast "
            ∷ show X current_fast
            ∷ ", current slow "
            ∷ show X current_slow
            ∷ [])))

  abbrev pub with_regime : EvaluationSide → Evaluation X → Evaluation X
  with_regime side (err e) = err e
  with_regime side (ok evaluation) = ok (record evaluation {
    rationale =
        format ("regime invalid for " ∷ label side ∷ " because " ∷ evaluation.rationale ∷ []);
  })

  abbrev pub evaluate_expression :
      ConditionExpression X
      → CompiledCondition X
      → EvaluationSide
      → RuleEvaluationContext X
      → Evaluation X
  evaluate_expression (ConditionExpression.trend_filter params) condition side context =
      trend_filter condition params side context
  evaluate_expression (ConditionExpression.trend_up params) condition side context =
      trend_up condition params context
  evaluate_expression (ConditionExpression.trend_down params) condition side context =
      trend_down condition params context
  evaluate_expression (ConditionExpression.breakout_up params) condition side context =
      breakout_up condition params context
  evaluate_expression (ConditionExpression.breakout_down params) condition side context =
      breakout_down condition params context
  evaluate_expression (ConditionExpression.rejection params) condition side context =
      rejection condition params side context
  evaluate_expression (ConditionExpression.volume_gate params) condition side context =
      volume_gate condition params context
  evaluate_expression (ConditionExpression.pullback_done params) condition side context =
      pullback_done condition params side context
  evaluate_expression (ConditionExpression.fail_structure params) condition side context =
      fail_structure condition params side context
  evaluate_expression (ConditionExpression.regime_invalid params) condition side context =
      with_regime side (fail_structure condition params side context)
  evaluate_expression (ConditionExpression.close_above_sma params) condition side context =
      close_above_sma condition params context
  evaluate_expression (ConditionExpression.close_below_sma params) condition side context =
      close_below_sma condition params context
  evaluate_expression (ConditionExpression.sma_cross_up params) condition side context =
      sma_cross_up condition params context
  evaluate_expression (ConditionExpression.sma_cross_down params) condition side context =
      sma_cross_down condition params context

  unfoldable pub evaluate_condition :
      CompiledCondition X → EvaluationSide → RuleEvaluationContext X → Evaluation X
  evaluate_condition condition side context =
      evaluate_expression condition.expression condition side context
