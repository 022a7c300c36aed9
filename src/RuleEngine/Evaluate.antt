-- ===== src/RuleEngine/Evaluate.antt =====
-- The helpers of crates/rule_engine/src/eval.rs: the bars of a condition, and the errors and results.
use tv_bot_core.Base.{
  ℕ, leb, Bool, Option, none, some, List, [], ◌∷◌, String, Result, ok, err, guard, not, length,
  format, if◌then◌else◌, is_empty,
}
use tv_bot_core.External.{Externals}
use tv_bot_core.CoreTypes.{Timeframe, timeframe_eq}
use tv_bot_core.Indicators.{BarInput, IndicatorError}
use tv_bot_core.RuleEngine.Conditions.{
  RuleEngineError, CompiledCondition, RuleEvaluationContext, ConditionEvaluation, usize_add,
}

-- The derived `Debug` of a timeframe.
abbrev debug_timeframe : Timeframe → String
debug_timeframe Timeframe.one_second = "OneSecond"
debug_timeframe Timeframe.one_minute = "OneMinute"
debug_timeframe Timeframe.five_minute = "FiveMinute"

-- `BTreeMap::get`
unfoldable pub get_bars {ℓ} : {A : Type ℓ} → List (Timeframe × A) → Timeframe → Option A
get_bars [] timeframe = none
get_bars ((key, value) ∷ entries) timeframe =
    if timeframe_eq key timeframe then some value else get_bars entries timeframe

unfoldable pub map_indicator_error : String → Timeframe → IndicatorError → RuleEngineError
map_indicator_error condition timeframe IndicatorError.empty_series =
    RuleEngineError.empty_series condition timeframe
map_indicator_error condition timeframe (IndicatorError.insufficient_bars needed available) =
    RuleEngineError.insufficient_bars condition timeframe needed available
map_indicator_error condition timeframe IndicatorError.invalid_period =
    RuleEngineError.malformed_condition condition "indicator period must be greater than zero"
map_indicator_error condition timeframe (IndicatorError.timeframe_mismatch expected found) =
    RuleEngineError.malformed_condition condition (
      format (
        "indicator timeframe mismatch: expected "
        ∷ debug_timeframe expected
        ∷ ", found "
        ∷ debug_timeframe found
        ∷ []))
map_indicator_error condition timeframe IndicatorError.not_bar_event =
    RuleEngineError.malformed_condition condition "indicator expected bar inputs"

-- `&bars[..bars.len() - 1]`
abbrev pub previous_bars : {X : Externals} → List (BarInput X) → List (BarInput X)
previous_bars [] = []
previous_bars (bar ∷ []) = []
previous_bars (bar ∷ next ∷ bars) = bar ∷ previous_bars (next ∷ bars)

module _ {X : Externals} where
  -- `map_err` of a result of an indicator, for `indicator_for_condition` and `latest_for_condition`.
  abbrev pub for_condition :
      {A : Type 0}
      → CompiledCondition X
      → Timeframe
      → Result IndicatorError A
      → Result RuleEngineError A
  for_condition condition timeframe (ok value) = ok value
  for_condition condition timeframe (err e) = err (map_indicator_error condition.raw timeframe e)

  abbrev nonempty :
      CompiledCondition X
      → Timeframe
      → Option (List (BarInput X))
      → Result RuleEngineError (List (BarInput X))
  nonempty condition timeframe none = err (RuleEngineError.missing_bars timeframe)
  nonempty condition timeframe (some bars) =
      if is_empty bars then err (RuleEngineError.empty_series condition.raw timeframe) else ok bars

  unfoldable pub bars_for :
      CompiledCondition X
      → Timeframe
      → RuleEvaluationContext X
      → Result RuleEngineError (List (BarInput X))
  unfolding get_bars
  bars_for condition timeframe context =
      nonempty condition timeframe (get_bars context.bars_by_timeframe timeframe)

  -- The check that a bar lies before the last `count` ones.
  abbrev pub longer_than :
      CompiledCondition X → Timeframe → List (BarInput X) → ℕ → Result RuleEngineError (Unit {0})
  longer_than condition timeframe bars count =
      guard (not (leb (length bars) count)) (
        RuleEngineError.insufficient_bars condition.raw timeframe (usize_add count 1) (length bars))

  unfoldable pub condition_result : CompiledCondition X → Bool → String → ConditionEvaluation X
  condition_result condition passed rationale = record {
    raw = condition.raw;
    passed = passed;
    score = if passed then X.decimal_one else X.decimal_zero;
    rationale = rationale;
  }
