-- ===== src/RuleEngine/Evaluates.antt =====
-- Every condition of crates/rule_engine evaluates once its bars are there.
use tv_bot_core.Base.{ℕ, ◌+◌, ◌≤◌, ◌<◌, ◌^◌, ◌≡◌, some, List, ok, err, length, Returns, refl, arith}
use tv_bot_core.External.{Externals}
use tv_bot_core.Indicators.{BarInput}
use tv_bot_core.Indicators.Series.{IsUniform}
use tv_bot_core.RuleEngine.Conditions.{
  EvaluationSide, ConditionExpression, CompiledCondition, RuleEvaluationContext, timeframe_of,
  required_bars, usize_add,
}
use tv_bot_core.RuleEngine.Evaluate.{get_bars}
use tv_bot_core.RuleEngine.Trends.{Evaluation}
use tv_bot_core.RuleEngine.Dispatch.{with_regime, evaluate_expression, evaluate_condition}
use tv_bot_core.RuleEngine.Sufficient.{
  trend_up-Returns, trend_down-Returns, trend_filter-Returns, fail_structure-Returns,
  close_above_sma-Returns, close_below_sma-Returns, breakout_up-Returns, breakout_down-Returns,
  sma_cross_up-Returns, sma_cross_down-Returns, rejection-Returns, volume_gate-Returns,
  pullback_done-Returns,
}

-- A count of bars that the one behind it is a `usize` of.
abbrev IsCount : ℕ → Type 0
IsCount n = (0 < n) × (n + 1 < 2 ^ 64)

behind :
    {A : Type 0} (n : ℕ) (bars : List A)
    → n + 1 < 2 ^ 64
    → usize_add n 1 ≤ length bars
    → n < length bars
behind n bars h k = omega arith

module _ {X : Externals} where
  -- Positive periods, the fast one below the slow one, and no `usize` overflow in the bars required.
  abbrev pub IsUsable : ConditionExpression X → Type 0
  IsUsable (ConditionExpression.trend_filter params) =
      (0 < params.fast_period) × (params.fast_period < params.slow_period)
  IsUsable (ConditionExpression.trend_up params) =
      (0 < params.fast_period) × (params.fast_period < params.slow_period)
  IsUsable (ConditionExpression.trend_down params) =
      (0 < params.fast_period) × (params.fast_period < params.slow_period)
  IsUsable (ConditionExpression.breakout_up params) = IsCount params.lookback
  IsUsable (ConditionExpression.breakout_down params) = IsCount params.lookback
  IsUsable (ConditionExpression.rejection params) = Unit
  IsUsable (ConditionExpression.volume_gate params) = IsCount params.period
  IsUsable (ConditionExpression.pullback_done params) =
      (0 < params.fast_period) × (params.fast_period < params.slow_period)
  IsUsable (ConditionExpression.fail_structure params) =
      (0 < params.fast_period) × (params.fast_period < params.slow_period)
  IsUsable (ConditionExpression.regime_invalid params) =
      (0 < params.fast_period) × (params.fast_period < params.slow_period)
  IsUsable (ConditionExpression.close_above_sma params) = 0 < params.period
  IsUsable (ConditionExpression.close_below_sma params) = 0 < params.period
  IsUsable (ConditionExpression.sma_cross_up params) =
      (0 < params.fast_period)
      × (params.fast_period < params.slow_period)
      × (params.slow_period + 1 < 2 ^ 64)
  IsUsable (ConditionExpression.sma_cross_down params) =
      (0 < params.fast_period)
      × (params.fast_period < params.slow_period)
      × (params.slow_period + 1 < 2 ^ 64)

  with_regime-Returns :
      (side : EvaluationSide) (r : Evaluation X) → Returns r → Returns (with_regime side r)
  with_regime-Returns side (ok evaluation) h = (_, refl)
  with_regime-Returns side (err e) h = cc

  expression-Returns :
      (expression : ConditionExpression X) (condition : CompiledCondition X) (side : EvaluationSide)
      (context : RuleEvaluationContext X) (bars : List (BarInput X))
      → IsUsable expression
      → get_bars context.bars_by_timeframe (timeframe_of expression) ≡ some bars
      → IsUniform bars
      → required_bars expression ≤ length bars
      → Returns (evaluate_expression expression condition side context)
  unfolding timeframe_of required_bars
  expression-Returns (ConditionExpression.trend_up params) condition side context bars usable h
        uniform n =
      trend_up-Returns condition side context bars params (h, omega arith, uniform) usable.0
        usable.1 n
  expression-Returns (ConditionExpression.trend_down params) condition side context bars usable h
        uniform n =
      trend_down-Returns condition side context bars params (h, omega arith, uniform) usable.0
        usable.1 n
  expression-Returns (ConditionExpression.trend_filter params) condition side context bars usable h
        uniform n =
      trend_filter-Returns condition side context bars params side (h, omega arith, uniform)
        usable.0 usable.1 n
  expression-Returns (ConditionExpression.fail_structure params) condition side context bars usable
        h uniform n =
      fail_structure-Returns condition side context bars params (h, omega arith, uniform) usable.0
        usable.1 n
  expression-Returns (ConditionExpression.regime_invalid params) condition side context bars usable
        h uniform n =
      with_regime-Returns side _ (
        fail_structure-Returns condition side context bars params (h, omega arith, uniform) usable.0
          usable.1 n)
  expression-Returns (ConditionExpression.close_above_sma params) condition side context bars usable
        h uniform n =
      close_above_sma-Returns condition side context bars params (h, omega arith, uniform) usable n
  expression-Returns (ConditionExpression.close_below_sma params) condition side context bars usable
        h uniform n =
      close_below_sma-Returns condition side context bars params (h, omega arith, uniform) usable n
  expression-Returns (ConditionExpression.breakout_up params) condition side context bars usable h
        uniform n =
      breakout_up-Returns condition side context bars params (h, omega arith, uniform) usable.0
        (behind params.lookback bars usable.1 n)
  expression-Returns (ConditionExpression.breakout_down params) condition side context bars usable h
        uniform n =
      breakout_down-Returns condition side context bars params (h, omega arith, uniform) usable.0
        (behind params.lookback bars usable.1 n)
  expression-Returns (ConditionExpression.volume_gate params) condition side context bars usable h
        uniform n =
      volume_gate-Returns condition side context bars params (h, omega arith, uniform) usable.0
        (behind params.period bars usable.1 n)
  expression-Returns (ConditionExpression.sma_cross_up params) condition side context bars usable h
        uniform n =
      sma_cross_up-Returns condition side context bars params
        (h, omega (arith, behind params.slow_period bars usable.2 n), uniform) usable.0 usable.1
        (behind params.slow_period bars usable.2 n)
  expression-Returns (ConditionExpression.sma_cross_down params) condition side context bars usable
        h uniform n =
      sma_cross_down-Returns condition side context bars params
        (h, omega (arith, behind params.slow_period bars usable.2 n), uniform) usable.0 usable.1
        (behind params.slow_period bars usable.2 n)
  expression-Returns (ConditionExpression.rejection params) condition side context bars usable h
        uniform n =
      rejection-Returns condition side context bars params (h, omega arith, uniform)
  expression-Returns (ConditionExpression.pullback_done params) condition side context bars usable h
        uniform n =
      pullback_done-Returns condition side context bars params (h, omega arith, uniform) usable.0
        (omega arith) (omega arith) (omega arith)

  -- A condition whose periods are positive, with the fast one below the slow one and no count at the
  -- end of `usize`, evaluates without an error, on either side, whenever its timeframe has at least
  -- the bars that the condition says it requires and they are all of one timeframe.
  pub evaluate_condition-Returns :
      (condition : CompiledCondition X) (side : EvaluationSide) (context : RuleEvaluationContext X)
      (bars : List (BarInput X))
      → IsUsable condition.expression
      → get_bars context.bars_by_timeframe (timeframe_of condition.expression) ≡ some bars
      → IsUniform bars
      → required_bars condition.expression ≤ length bars
      → Returns (evaluate_condition condition side context)
  unfolding evaluate_condition
  evaluate_condition-Returns condition = expression-Returns condition.expression condition
