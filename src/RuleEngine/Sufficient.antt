-- ===== src/RuleEngine/Sufficient.antt =====
-- The conditions of crates/rule_engine/src/eval.rs return a value once their timeframe has enough bars.
use tv_bot_core.Base.{ℕ, ◌≤◌, ◌<◌, List, ok, length, Returns, >>=-Returns_at, refl, arith, ◌>>=◌}
use tv_bot_core.External.{Externals}
use tv_bot_core.CoreTypes.{Timeframe}
use tv_bot_core.Indicators.{BarInput, latest_bar, simple_moving_average}
use tv_bot_core.Indicators.Series.{indicators-Returns_iff}
use tv_bot_core.RuleEngine.Conditions.{
  EvaluationSide, CompiledCondition, RuleEvaluationContext, TrendParams, BreakoutParams,
  VolumeGateParams, PullbackParams, SmaParams, SmaCrossParams, RejectionParams,
}
use tv_bot_core.RuleEngine.Evaluate.{previous_bars, for_condition, bars_for}
use tv_bot_core.RuleEngine.Trends.{
  trend_up, trend_down, trend_filter, fail_structure, close_above_sma, close_below_sma,
}
use tv_bot_core.RuleEngine.Checks.{
  breakout_up, breakout_down, rejection, volume_gate, pullback_done,
}
use tv_bot_core.RuleEngine.Dispatch.{sma_cross_up, sma_cross_down}
use tv_bot_core.RuleEngine.Bars.{
  previous_bars-Accepts, Holds, bars_for-ok, step, longer_than-ok, sma-Returns, latest-Returns,
}

module _ {X : Externals} (condition : CompiledCondition X) (side : EvaluationSide)
    (context : RuleEvaluationContext X) (bars : List (BarInput X)) where
  -- The two averages and the latest bar, on which four conditions are decided.
  averages-Returns :
      (timeframe : Timeframe) (fast slow : ℕ) {A : Type 0}
      (rest : List (BarInput X) → X.Decimal → X.Decimal → BarInput X → A)
      → Holds context timeframe bars
      → 0 < fast
      → 0 < slow
      → fast ≤ length bars
      → slow ≤ length bars
      → Returns (
          bars_for condition timeframe context >>= λ b.
          for_condition condition timeframe (simple_moving_average X b fast) >>= λ f.
          for_condition condition timeframe (simple_moving_average X b slow) >>= λ s.
          for_condition condition timeframe (latest_bar b) >>= λ l. ok (rest b f s l))
  averages-Returns timeframe fast slow rest h f s fn sn =
      >>=-Returns_at _ (bars_for-ok condition timeframe context bars h) (
        step condition timeframe _ _ (sma-Returns X bars fast (f, fn, h.2)) λ _.
          step condition timeframe _ _ (sma-Returns X bars slow (s, sn, h.2))
            λ _. step condition timeframe _ _ (latest-Returns X bars h.1 h.2) λ _. (_, refl))

  pub trend_up-Returns :
      (params : TrendParams)
      → Holds context params.timeframe bars
      → 0 < params.fast_period
      → params.fast_period < params.slow_period
      → params.slow_period ≤ length bars
      → Returns (trend_up condition params context)
  unfolding trend_up
  trend_up-Returns params h f s n =
      averages-Returns params.timeframe params.fast_period params.slow_period _ h f (omega arith)
        (omega arith) n

  pub trend_down-Returns :
      (params : TrendParams)
      → Holds context params.timeframe bars
      → 0 < params.fast_period
      → params.fast_period < params.slow_period
      → params.slow_period ≤ length bars
      → Returns (trend_down condition params context)
  unfolding trend_down
  trend_down-Returns params h f s n =
      averages-Returns params.timeframe params.fast_period params.slow_period _ h f (omega arith)
        (omega arith) n

  pub trend_filter-Returns :
      (params : TrendParams) (way : EvaluationSide)
      → Holds context params.timeframe bars
      → 0 < params.fast_period
      → params.fast_period < params.slow_period
      → params.slow_period ≤ length bars
      → Returns (trend_filter condition params way context)
  unfolding trend_filter
  trend_filter-Returns params EvaluationSide.long h f s n = trend_up-Returns params h f s n
  trend_filter-Returns params EvaluationSide.short h f s n = trend_down-Returns params h f s n

  pub fail_structure-Returns :
      (params : TrendParams)
      → Holds context params.timeframe bars
      → 0 < params.fast_period
      → params.fast_period < params.slow_period
      → params.slow_period ≤ length bars
      → Returns (fail_structure condition params side context)
  unfolding fail_structure
  fail_structure-Returns params h f s n =
      averages-Returns params.timeframe params.fast_period params.slow_period _ h f (omega arith)
        (omega arith) n

  pub close_above_sma-Returns :
      (params : SmaParams)
      → Holds context params.timeframe bars
      → 0 < params.period
      → params.period ≤ length bars
      → Returns (close_above_sma condition params context)
  unfolding close_above_sma
  close_above_sma-Returns params h f n =
      >>=-Returns_at _ (bars_for-ok condition params.timeframe context bars h) (
        step condition params.timeframe _ _ (sma-Returns X bars params.period (f, n, h.2))
          λ _. step condition params.timeframe _ _ (latest-Returns X bars h.1 h.2) λ _. (_, refl))

  pub close_below_sma-Returns :
      (params : SmaParams)
      → Holds context params.timeframe bars
      → 0 < params.period
      → params.period ≤ length bars
      → Returns (close_below_sma condition params context)
  unfolding close_below_sma
  close_below_sma-Returns params h f n =
      >>=-Returns_at _ (bars_for-ok condition params.timeframe context bars h) (
        step condition params.timeframe _ _ (sma-Returns X bars params.period (f, n, h.2))
          λ _. step condition params.timeframe _ _ (latest-Returns X bars h.1 h.2) λ _. (_, refl))

  pub breakout_up-Returns :
      (params : BreakoutParams)
      → Holds context params.timeframe bars
      → 0 < params.lookback
      → params.lookback < length bars
      → Returns (breakout_up condition params context)
  unfolding breakout_up
  breakout_up-Returns params h f n =
      >>=-Returns_at _ (bars_for-ok condition params.timeframe context bars h) (
        >>=-Returns_at _ (longer_than-ok condition params.timeframe bars params.lookback n) (
          step condition params.timeframe _ _
            ((indicators-Returns_iff X (previous_bars bars) params.lookback).2.1
              (previous_bars-Accepts bars params.lookback f n h.2))
            λ _.
              step condition params.timeframe _ _ (latest-Returns X bars h.1 h.2) λ _. (_, refl)))

  pub breakout_down-Returns :
      (params : BreakoutParams)
      → Holds context params.timeframe bars
      → 0 < params.lookback
      → params.lookback < length bars
      → Returns (breakout_down condition params context)
  unfolding breakout_down
  breakout_down-Returns params h f n =
      >>=-Returns_at _ (bars_for-ok condition params.timeframe context bars h) (
        >>=-Returns_at _ (longer_than-ok condition params.timeframe bars params.lookback n) (
          step condition params.timeframe _ _
            ((indicators-Returns_iff X (previous_bars bars) params.lookback).3.1
              (previous_bars-Accepts bars params.lookback f n h.2))
            λ _.
              step condition params.timeframe _ _ (latest-Returns X bars h.1 h.2) λ _. (_, refl)))

  pub sma_cross_up-Returns :
      (params : SmaCrossParams)
      → Holds context params.timeframe bars
      → 0 < params.fast_period
      → params.fast_period < params.slow_period
      → params.slow_period < length bars
      → Returns (sma_cross_up condition params context)
  unfolding sma_cross_up
  sma_cross_up-Returns params h f s n =
      >>=-Returns_at _ (bars_for-ok condition params.timeframe context bars h) (
        >>=-Returns_at _ (longer_than-ok condition params.timeframe bars params.slow_period n) (
          step condition params.timeframe _ _
            (sma-Returns X (previous_bars bars) params.fast_period
              (previous_bars-Accepts bars params.fast_period f (omega arith) h.2))
            λ _.
              step condition params.timeframe _ _
                (sma-Returns X (previous_bars bars) params.slow_period
                  (previous_bars-Accepts bars params.slow_period (omega arith) n h.2))
                λ _.
                  step condition params.timeframe _ _
                    (sma-Returns X bars params.fast_period (f, omega arith, h.2))
                    λ _.
                      step condition params.timeframe _ _
                        (sma-Returns X bars params.slow_period (omega arith, omega arith, h.2))
                        λ _. (_, refl)))

  pub sma_cross_down-Returns :
      (params : SmaCrossParams)
      → Holds context params.timeframe bars
      → 0 < params.fast_period
      → params.fast_period < params.slow_period
      → params.slow_period < length bars
      → Returns (sma_cross_down condition params context)
  unfolding sma_cross_down
  sma_cross_down-Returns params h f s n =
      >>=-Returns_at _ (bars_for-ok condition params.timeframe context bars h) (
        >>=-Returns_at _ (longer_than-ok condition params.timeframe bars params.slow_period n) (
          step condition params.timeframe _ _
            (sma-Returns X (previous_bars bars) params.fast_period
              (previous_bars-Accepts bars params.fast_period f (omega arith) h.2))
            λ _.
              step condition params.timeframe _ _
                (sma-Returns X (previous_bars bars) params.slow_period
                  (previous_bars-Accepts bars params.slow_period (omega arith) n h.2))
                λ _.
                  step condition params.timeframe _ _
                    (sma-Returns X bars params.fast_period (f, omega arith, h.2))
                    λ _.
                      step condition params.timeframe _ _
                        (sma-Returns X bars params.slow_period (omega arith, omega arith, h.2))
                        λ _. (_, refl)))

  pub rejection-Returns :
      (params : RejectionParams X)
      → Holds context params.timeframe bars
      → Returns (rejection condition params side context)
  unfolding rejection
  rejection-Returns params h =
      >>=-Returns_at _ (bars_for-ok condition params.timeframe context bars h)
        (step condition params.timeframe _ _ (latest-Returns X bars h.1 h.2) λ _. (_, refl))

  pub volume_gate-Returns :
      (params : VolumeGateParams X)
      → Holds context params.timeframe bars
      → 0 < params.period
      → params.period < length bars
      → Returns (volume_gate condition params context)
  unfolding volume_gate
  volume_gate-Returns params h f n =
      >>=-Returns_at _ (bars_for-ok condition params.timeframe context bars h) (
        >>=-Returns_at _ (longer_than-ok condition params.timeframe bars params.period n) (
          step condition params.timeframe _ _
            ((indicators-Returns_iff X (previous_bars bars) params.period).4.1
              (previous_bars-Accepts bars params.period f n h.2))
            λ _.
              step condition params.timeframe _ _ (latest-Returns X bars h.1 h.2) λ _. (_, refl)))

  pub pullback_done-Returns :
      (params : PullbackParams)
      → Holds context params.timeframe bars
      → 0 < params.fast_period
      → 0 < params.slow_period
      → params.fast_period ≤ length bars
      → params.slow_period ≤ length bars
      → Returns (pullback_done condition params side context)
  unfolding pullback_done
  pullback_done-Returns params h f s fn sn =
      >>=-Returns_at _ (bars_for-ok condition params.timeframe context bars h) (
        step condition params.timeframe _ _
          ((indicators-Returns_iff X bars params.fast_period).1.1 (f, fn, h.2))
          λ _.
            step condition params.timeframe _ _ (sma-Returns X bars params.slow_period (s, sn, h.2))
              λ _.
                step condition params.timeframe _ _ (latest-Returns X bars h.1 h.2) λ _. (_, refl))
