-- ===== src/RuleEngine/Parse.antt =====
-- crates/rule_engine/src/parser.rs: the text of a condition, such as `trend_up(fast=5,slow=20)`.
use tv_bot_core.Base.{
  ℕ, ltb, Option, none, some, List, [], ◌∷◌, String, Result, ok, err, ◌>>=◌, ◌>>◌, guard, not, ◌||◌,
  trim, split, split_once, strip_last, parse_usize, format, if◌then◌else◌, is_some,
}
use tv_bot_core.Base.Text
use text.Mathlib.Text.{◌==◌}
use tv_bot_core.External.{Externals}
use tv_bot_core.CoreTypes.{Timeframe}
use tv_bot_core.RuleEngine.Conditions.{
  TrendParams, BreakoutParams, RejectionParams, VolumeGateParams, PullbackParams, SmaParams,
  SmaCrossParams, RuleEngineError, ConditionExpression, CompiledCondition,
}

-- The `BTreeMap` of the parameters, as a list with the latest entry of each key.
abbrev pub Parameters : Type 0
Parameters = List (String × String)

unfoldable pub get : Parameters → String → Option String
get [] key = none
get ((k, value) ∷ entries) key = if k == key then some value else get entries key

-- `parts.next()` of `splitn(2, '=')`: the key and the value, both trimmed.
abbrev key_and_value : String → Option (String × String) → String × String
key_and_value piece none = (trim piece, "")
key_and_value piece (some (key, value)) = (trim key, trim value)

abbrev entry_of : String → String × String
entry_of piece = key_and_value piece (split_once b'=' piece)

unfoldable pub parse_entries : String → List String → Result RuleEngineError Parameters
parse_entries condition [] = ok []
parse_entries condition (entry ∷ entries) =
    let piece = trim entry in
    let rest = parse_entries condition entries in
    if Text.is_empty piece then rest else do
      let (key, value) = entry_of piece
      guard (not (Text.is_empty key || Text.is_empty value)) (
          RuleEngineError.malformed_condition condition
            (format ("expected key=value parameter, found `" ∷ piece ∷ "`" ∷ [])))
      later ← rest
      ok (if is_some (get later key) then later else (key, value) ∷ later)

unfoldable pub parse_parameter_map : String → String → Result RuleEngineError Parameters
unfolding parse_entries
parse_parameter_map condition block =
    if Text.is_empty (trim block) then ok [] else parse_entries condition (split b',' block)

-- A parameter that is given, read; or the default.
abbrev or_default :
    {A : Type 0}
    → (String → Option A)
    → (String → RuleEngineError)
    → A
    → Option String
    → Result RuleEngineError A
or_default read error default none = ok default
or_default read error default (some raw) = elim (read raw) [
  | none ↦ err (error raw)
  | some value ↦ ok value
]

unfoldable pub parse_usize_parameter : String → Parameters → String → ℕ → Result RuleEngineError ℕ
unfolding get
parse_usize_parameter condition parameters key default =
    or_default parse_usize
      (λ raw.
        RuleEngineError.invalid_parameter condition key
          (format ("`" ∷ raw ∷ "` is not a valid positive integer" ∷ [])))
      default (get parameters key)

abbrev timeframe_of_text : String → Option Timeframe
timeframe_of_text value =
    if value == "1s"
    then some Timeframe.one_second
    else if value == "1m"
    then some Timeframe.one_minute
    else if value == "5m"
    then some Timeframe.five_minute
    else none

unfoldable pub parse_timeframe_parameter :
    String → Parameters → String → Timeframe → Result RuleEngineError Timeframe
unfolding get
parse_timeframe_parameter condition parameters key default =
    or_default timeframe_of_text
      (λ value.
        RuleEngineError.invalid_parameter condition key
          (format ("unsupported timeframe `" ∷ value ∷ "`" ∷ [])))
      default (get parameters key)

abbrev pub timeframe_parameter : String → Parameters → Result RuleEngineError Timeframe
timeframe_parameter condition parameters =
    parse_timeframe_parameter condition parameters "timeframe" Timeframe.one_minute

unfoldable pub parse_trend_params : String → Parameters → Result RuleEngineError TrendParams
unfolding parse_usize_parameter parse_timeframe_parameter
parse_trend_params condition parameters = do
  fast_period ← parse_usize_parameter condition parameters "fast" 5
  slow_period ← parse_usize_parameter condition parameters "slow" 20
  guard (ltb fast_period slow_period) (
      RuleEngineError.invalid_parameter condition "fast"
        "fast period must be less than slow period")
  timeframe ← timeframe_parameter condition parameters
  ok (record { timeframe = timeframe; fast_period = fast_period; slow_period = slow_period })

unfoldable pub parse_breakout_params : String → Parameters → Result RuleEngineError BreakoutParams
unfolding parse_usize_parameter parse_timeframe_parameter
parse_breakout_params condition parameters = do
  timeframe ← timeframe_parameter condition parameters
  lookback ← parse_usize_parameter condition parameters "lookback" 20
  ok (record { timeframe = timeframe; lookback = lookback })

unfoldable pub parse_sma_params : String → Parameters → Result RuleEngineError SmaParams
unfolding parse_usize_parameter parse_timeframe_parameter
parse_sma_params condition parameters = do
  timeframe ← timeframe_parameter condition parameters
  period ← parse_usize_parameter condition parameters "period" 20
  ok (record { timeframe = timeframe; period = period })

unfoldable pub parse_pullback_params : String → Parameters → Result RuleEngineError PullbackParams
unfolding parse_trend_params
parse_pullback_params condition parameters = do
  trend ← parse_trend_params condition parameters
  ok (record {
    timeframe = trend.timeframe;
    fast_period = trend.fast_period;
    slow_period = trend.slow_period;
  })

unfoldable pub parse_cross_params : String → Parameters → Result RuleEngineError SmaCrossParams
unfolding parse_trend_params
parse_cross_params condition parameters = do
  trend ← parse_trend_params condition parameters
  ok (record {
    timeframe = trend.timeframe;
    fast_period = trend.fast_period;
    slow_period = trend.slow_period;
  })

module _ (X : Externals) where
  open X use {Decimal, decimal_le, decimal_zero, decimal_one, decimal_new, decimal_of_unsigned}

  unfoldable pub parse_decimal_parameter :
      String → Parameters → String → Decimal → Result RuleEngineError Decimal
  unfolding get
  parse_decimal_parameter condition parameters key default =
      or_default X.decimal_from_str
        (λ raw.
          RuleEngineError.invalid_parameter condition key
            (format ("`" ∷ raw ∷ "` is not a valid decimal" ∷ [])))
        default (get parameters key)

  unfoldable pub parse_rejection_params :
      String → Parameters → Result RuleEngineError (RejectionParams X)
  unfolding parse_decimal_parameter parse_timeframe_parameter
  parse_rejection_params condition parameters = do
    close_fraction ← parse_decimal_parameter condition parameters "close_fraction" (decimal_new 6 1)
    guard (not (decimal_le close_fraction decimal_zero || decimal_le decimal_one close_fraction)) (
        RuleEngineError.invalid_parameter condition "close_fraction"
          "close_fraction must be between 0 and 1")
    timeframe ← timeframe_parameter condition parameters
    wick_ratio ← parse_decimal_parameter condition parameters "wick_ratio" (decimal_of_unsigned 2)
    ok (record { timeframe = timeframe; wick_ratio = wick_ratio; close_fraction = close_fraction })

  unfoldable pub parse_volume_gate_params :
      String → Parameters → Result RuleEngineError (VolumeGateParams X)
  unfolding parse_decimal_parameter parse_timeframe_parameter parse_usize_parameter
  parse_volume_gate_params condition parameters = do
    timeframe ← timeframe_parameter condition parameters
    period ← parse_usize_parameter condition parameters "period" 20
    min_ratio ← parse_decimal_parameter condition parameters "min_ratio" (decimal_new 12 1)
    ok (record { timeframe = timeframe; period = period; min_ratio = min_ratio })

  -- What a name reads its parameters as; the last name is no condition's.
  abbrev pub Reader : Type 0
  Reader = String → Parameters → Result RuleEngineError (ConditionExpression X)

  abbrev pub read_as :
      {P : Type 0}
      → (String → Parameters → Result RuleEngineError P)
      → (P → ConditionExpression X)
      → Reader
  read_as parse build condition parameters =
      parse condition parameters >>= λ params. ok (build params)

  unfoldable pub reader_of : String → Reader
  unfolding parse_trend_params parse_breakout_params parse_rejection_params parse_volume_gate_params
      parse_pullback_params parse_sma_params parse_cross_params
  reader_of name =
      if name == "trend_filter"
      then read_as parse_trend_params ConditionExpression.trend_filter
      else if name == "trend_up"
      then read_as parse_trend_params ConditionExpression.trend_up
      else if name == "trend_down"
      then read_as parse_trend_params ConditionExpression.trend_down
      else if name == "breakout_up"
      then read_as parse_breakout_params ConditionExpression.breakout_up
      else if name == "breakout_down"
      then read_as parse_breakout_params ConditionExpression.breakout_down
      else if name == "rejection"
      then read_as parse_rejection_params ConditionExpression.rejection
      else if name == "volume_gate"
      then read_as parse_volume_gate_params ConditionExpression.volume_gate
      else if name == "pullback_done"
      then read_as parse_pullback_params ConditionExpression.pullback_done
      else if name == "fail_structure"
      then read_as parse_trend_params ConditionExpression.fail_structure
      else if name == "regime_invalid"
      then read_as parse_trend_params ConditionExpression.regime_invalid
      else if name == "close_above_sma"
      then read_as parse_sma_params ConditionExpression.close_above_sma
      else if name == "close_below_sma"
      then read_as parse_sma_params ConditionExpression.close_below_sma
      else if name == "sma_cross_up"
      then read_as parse_cross_params ConditionExpression.sma_cross_up
      else if name == "sma_cross_down"
      then read_as parse_cross_params ConditionExpression.sma_cross_down
      else λ condition parameters. err (RuleEngineError.unknown_condition name)

  abbrev closed_block :
      String → String → Option String → Result RuleEngineError (String × Parameters)
  closed_block trimmed name none =
      err (RuleEngineError.malformed_condition trimmed "missing closing `)`")
  closed_block trimmed name (some block) =
      parse_parameter_map trimmed block >>= λ parameters. ok (trim name, parameters)

  -- The name and the parameters. A text that ends in `)` behind its first `(` ends in it as a
  -- whole, since the two marks differ.
  abbrev pub name_and_parameters :
      String → Option (String × String) → Result RuleEngineError (String × Parameters)
  name_and_parameters trimmed none = ok (trimmed, [])
  name_and_parameters trimmed (some (name, behind)) =
      closed_block trimmed name (strip_last b')' behind)

  unfoldable pub parse_condition_expression :
      String → Result RuleEngineError (ConditionExpression X)
  unfolding parse_parameter_map reader_of
  parse_condition_expression raw =
      let trimmed = trim raw in
      if Text.is_empty trimmed
      then err (RuleEngineError.malformed_condition raw "condition must not be empty")
      else do
        (name, parameters) ← name_and_parameters trimmed (split_once b'(' trimmed)
        reader_of name trimmed parameters

  -- `CompiledCondition::parse`
  unfoldable pub parse_condition : String → Result RuleEngineError (CompiledCondition X)
  unfolding parse_condition_expression
  parse_condition raw = do
    expression ← parse_condition_expression raw
    ok (record { raw = trim raw; expression = expression })
