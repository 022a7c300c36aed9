-- ===== src/RuleEngine/Tests.antt =====
-- Runs of the rule engine: conditions read from their text and evaluated over rising bars.
use tv_bot_core.Base.{show_i64}
use tv_bot_core.Base.{format}
use tv_bot_core.RuleEngine.SignalPlan.{score_ratio}
use tv_bot_core.Base.{◌+ℤ◌}
use tv_bot_core.Indicators.{latest_bar}
use tv_bot_core.Indicators.{simple_moving_average}
use tv_bot_core.RuleEngine.Trends.{trend_up}
use tv_bot_core.RuleEngine.SignalPlan.{sequence_evaluations}
use tv_bot_core.RuleEngine.Conditions.{required_bars}
use tv_bot_core.RuleEngine.Conditions.{timeframe_of}
use tv_bot_core.RuleEngine.Evaluate.{get_bars}
use tv_bot_core.Base.{parse_usize}
use tv_bot_core.Base.{split}
use tv_bot_core.Base.{strip_last}
use tv_bot_core.Base.{split_once}
use tv_bot_core.Base.{trim}
use tv_bot_core.Base.{pos, true, none, [], ◌∷◌, ◌≡◌, ◌<◌, ok, err, Returns, refl, arith}
use tv_bot_core.CoreTypes.{Timeframe, SignalCombinationMode}
use tv_bot_core.Sample.{cents, rising}
use tv_bot_core.RuleEngine.Conditions.{
  EvaluationSide, RuleEngineError, ConditionExpression, CompiledCondition, RuleEvaluationContext,
  ConditionEvaluation, RuleSetEvaluation, SignalPlan,
}
use tv_bot_core.RuleEngine.Parse.{parse_condition}
use tv_bot_core.RuleEngine.Dispatch.{evaluate_condition}
use tv_bot_core.RuleEngine.SignalPlan.{evaluate_signal_plan}
use tv_bot_core.RuleEngine.Parsed.{parse_condition-IsWellFormed}
use tv_bot_core.RuleEngine.Evaluates.{evaluate_condition-Returns}
use tv_bot_core.RuleEngine.Signals.{admits, evaluate_signal_plan-admits}

abbrev trending : CompiledCondition cents
trending = record {
  raw = "trend_up(fast=2, slow=3)";
  expression =
      ConditionExpression.trend_up
        (record { timeframe = Timeframe.one_minute; fast_period = 2; slow_period = 3 });
}

abbrev minutes : RuleEvaluationContext cents
minutes = record {
  bars_by_timeframe = (Timeframe.one_minute, rising) ∷ [];
  now = pos 0;
  position = none;
}

read_trending : parse_condition cents " trend_up(fast=2, slow=3) " ≡ ok trending
unfolding parse_condition trim split_once strip_last split parse_usize
read_trending = refl

-- A period of zero is read, although no indicator takes it.
read_zero_period :
    parse_condition cents "close_above_sma(period=0)"
    ≡ ok (record {
      raw = "close_above_sma(period=0)";
      expression =
          ConditionExpression.close_above_sma
            (record { timeframe = Timeframe.one_minute; period = 0 });
    })
unfolding parse_condition trim split_once strip_last split parse_usize
read_zero_period = refl

unordered :
    parse_condition cents "sma_cross_up(fast=20,slow=10)"
    ≡ err (
        RuleEngineError.invalid_parameter "sma_cross_up(fast=20,slow=10)" "fast"
          "fast period must be less than slow period")
unfolding parse_condition trim split_once strip_last split parse_usize
unordered = refl

parse_condition-IsWellFormed_example : 2 < 3
unfolding parse_condition trim split_once strip_last split parse_usize
parse_condition-IsWellFormed_example =
    parse_condition-IsWellFormed {X = cents} "trend_up(fast=2, slow=3)" trending refl

evaluate_condition-Returns_example :
    Returns (evaluate_condition trending EvaluationSide.long minutes)
unfolding get_bars timeframe_of required_bars
evaluate_condition-Returns_example =
    evaluate_condition-Returns trending EvaluationSide.long minutes rising
      (omega arith, omega arith) refl (refl, (refl, tt)) (omega arith)

abbrev plan : SignalPlan cents
plan = record {
  mode = SignalCombinationMode.all;
  primary = trending ∷ [];
  secondary = [];
  n_required = none;
  score_threshold = none;
  regime_filter = none;
  sequence = [];
}

abbrev upward : ConditionEvaluation cents
upward = record {
  raw = "trend_up(fast=2, slow=3)";
  passed = true;
  score = pos 1;
  rationale = "fast SMA 17 is above slow SMA 14 and close 20 is above slow SMA";
}

abbrev all_matched : RuleSetEvaluation cents
all_matched = record {
  matched = true;
  matched_conditions = 1;
  total_conditions = 1;
  score = pos 1;
  details = upward ∷ [];
  blocking_reason = none;
}

evaluate_signal_plan-admits_example : true ≡ admits plan EvaluationSide.long minutes
unfolding evaluate_signal_plan sequence_evaluations evaluate_condition trend_up
    simple_moving_average latest_bar ◌+ℤ◌ score_ratio format show_i64
evaluate_signal_plan-admits_example =
    evaluate_signal_plan-admits EvaluationSide.long minutes plan all_matched refl
