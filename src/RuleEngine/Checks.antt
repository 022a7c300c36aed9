-- ===== src/RuleEngine/Checks.antt =====
-- crates/rule_engine/src/eval.rs: the evaluation of one condition over the bars of its timeframe:
-- breakouts, rejections, volume and pullbacks.
use tv_bot_core.Indicators.{
  close_position_ratio, simple_moving_average, bar_body, average_volume, exponential_moving_average,
  highest_high, lowest_low, latest_bar, upper_wick, lower_wick, BarInput,
}
use tv_bot_core.RuleEngine.Trends.{show, Evaluation, is_word}
use tv_bot_core.Base.{ok, ◌>>◌, ◌&&◌, ◌>>=◌, [], ◌∷◌, format, if◌then◌else◌, String, Bool}
use tv_bot_core.External.{Externals, decimal_lt}
use tv_bot_core.RuleEngine.Conditions.{
  EvaluationSide, BreakoutParams, RejectionParams, VolumeGateParams, PullbackParams,
  CompiledCondition, RuleEvaluationContext,
}
use tv_bot_core.RuleEngine.Evaluate.{
  previous_bars, longer_than, for_condition, condition_result, bars_for,
}

module _ (X : Externals) where
  open X use {Decimal, decimal_le, decimal_one, decimal_sub}

  abbrev pub side_wick : EvaluationSide → BarInput X → Decimal
  side_wick EvaluationSide.long bar = lower_wick X bar
  side_wick EvaluationSide.short bar = upper_wick X bar

  abbrev directional_close : EvaluationSide → Decimal → Decimal → Bool
  directional_close EvaluationSide.long ratio fraction = decimal_le fraction ratio
  directional_close EvaluationSide.short ratio fraction =
      decimal_le ratio (decimal_sub decimal_one fraction)

  abbrev pulled_back : EvaluationSide → Decimal → Decimal → BarInput X → Bool
  pulled_back EvaluationSide.long fast slow latest =
      decimal_lt X slow fast && decimal_le latest.low fast && decimal_le fast latest.close
  pulled_back EvaluationSide.short fast slow latest =
      decimal_lt X fast slow && decimal_le fast latest.high && decimal_le latest.close fast

abbrev wick_name : EvaluationSide → String
wick_name EvaluationSide.long = "lower"
wick_name EvaluationSide.short = "upper"

module _ {X : Externals} where
  open X use {
    Decimal, decimal_le, decimal_zero, decimal_one, decimal_mul, decimal_sub, decimal_is_zero,
    decimal_of_unsigned,
  }

  unfoldable pub breakout_up :
      CompiledCondition X → BreakoutParams → RuleEvaluationContext X → Evaluation X
  unfolding bars_for condition_result
  breakout_up condition params context = do
    bars ← bars_for condition params.timeframe context
    longer_than condition params.timeframe bars params.lookback
    extreme ←
        for_condition condition params.timeframe
          (highest_high X (previous_bars bars) params.lookback)
    latest ← for_condition condition params.timeframe (latest_bar bars)
    let passed = decimal_lt X extreme latest.close
    ok (
        condition_result condition passed (
          format (
            "close "
            ∷ show X latest.close
            ∷ " is "
            ∷ is_word passed "above"
            ∷ " previous breakout high "
            ∷ show X extreme
            ∷ [])))

  unfoldable pub breakout_down :
      CompiledCondition X → BreakoutParams → RuleEvaluationContext X → Evaluation X
  unfolding bars_for condition_result
  breakout_down condition params context = do
    bars ← bars_for condition params.timeframe context
    longer_than condition params.timeframe bars params.lookback
    extreme ←
        for_condition condition params.timeframe (lowest_low X (previous_bars bars) params.lookback)
    latest ← for_condition condition params.timeframe (latest_bar bars)
    let passed = decimal_lt X latest.close extreme
    ok (
        condition_result condition passed (
          format (
            "close "
            ∷ show X latest.close
            ∷ " is "
            ∷ is_word passed "below"
            ∷ " previous breakout low "
            ∷ show X extreme
            ∷ [])))

  unfoldable pub rejection :
      CompiledCondition X
      → RejectionParams X
      → EvaluationSide
      → RuleEvaluationContext X
      → Evaluation X
  unfolding bars_for condition_result
  rejection condition params side context = do
    bars ← bars_for condition params.timeframe context
    latest ← for_condition condition params.timeframe (latest_bar bars)
    let body = bar_body X latest
    let wick = side_wick X side latest
    let close_ratio = close_position_ratio X latest
    let wick_ok =
        if decimal_is_zero body
        then decimal_lt X decimal_zero wick
        else decimal_le (decimal_mul body params.wick_ratio) wick
    ok (
        condition_result condition
          (wick_ok && directional_close X side close_ratio params.close_fraction)
          (format (
            wick_name side
            ∷ " wick "
            ∷ show X wick
            ∷ " with body "
            ∷ show X body
            ∷ " and close ratio "
            ∷ show X close_ratio
            ∷ [])))

  unfoldable pub volume_gate :
      CompiledCondition X → VolumeGateParams X → RuleEvaluationContext X → Evaluation X
  unfolding bars_for condition_result
  volume_gate condition params context = do
    bars ← bars_for condition params.timeframe context
    longer_than condition params.timeframe bars params.period
    baseline ←
        for_condition condition params.timeframe
          (average_volume X (previous_bars bars) params.period)
    latest ← for_condition condition params.timeframe (latest_bar bars)
    let current_volume = decimal_of_unsigned latest.volume
    let threshold = decimal_mul baseline params.min_ratio
    let passed = decimal_le threshold current_volume
    ok (
        condition_result condition passed (
          format (
            "volume "
            ∷ show X current_volume
            ∷ " is "
            ∷ (if passed then "above" else "below")
            ∷ " threshold "
            ∷ show X threshold
            ∷ [])))

  unfoldable pub pullback_done :
      CompiledCondition X → PullbackParams → EvaluationSide → RuleEvaluationContext X → Evaluation X
  unfolding bars_for condition_result
  pullback_done condition params side context = do
    bars ← bars_for condition params.timeframe context
    fast ←
        for_condition condition params.timeframe
          (exponential_moving_average X bars params.fast_period)
    slow ←
        for_condition condition params.timeframe (simple_moving_average X bars params.slow_period)
    latest ← for_condition condition params.timeframe (latest_bar bars)
    ok (
        condition_result condition (pulled_back X side fast slow latest) (
          format (
            "pullback check with fast EMA "
            ∷ show X fast
            ∷ ", slow SMA "
            ∷ show X slow
            ∷ ", close "
            ∷ show X latest.close
            ∷ ", low "
            ∷ show X latest.low
            ∷ ", high "
            ∷ show X latest.high
            ∷ [])))
