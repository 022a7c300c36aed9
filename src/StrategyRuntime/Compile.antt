-- ===== src/StrategyRuntime/Compile.antt =====
-- `StrategyRuntimeCompiler` of crates/strategy_runtime/src/lib.rs.
use text.Mathlib.Text.{◌==◌}
use tv_bot_core.Base.{
  ◌%◌, ◌^◌, leb, Bool, Option, none, some, List, [], ◌∷◌, ◌++◌, String, Result, ok, err, ◌>>=◌,
  ◌>>◌, guard, ok_or, ◌||◌, any, trim, eq_ignore_ascii_case, format, if◌then◌else◌, try_map,
  try_option, unwrap_or,
}
use tv_bot_core.External.{Externals, Weekday}
use tv_bot_core.CoreTypes.{CompiledStrategy, TradeWindow, FlattenRule, timeframe_eq}
use tv_bot_core.RuleEngine.Conditions.{
  CompiledCondition, RuleEngineError, timeframe_of, required_bars,
}
use tv_bot_core.RuleEngine.Parse.{parse_condition}
use tv_bot_core.RuleEngine.Evaluate.{get_bars}
use tv_bot_core.StrategyRuntime.Definition.{
  RuntimeTradeWindow, RuntimeFlattenRule, RuntimeSignalPlan, RuntimeEntryConditions,
  RuntimeStrategyDefinition, StrategyRuntimeError,
}

-- `raw.trim().to_ascii_lowercase()` against names that are lower case.
abbrev names_day : String → List String → Bool
names_day raw names = any (eq_ignore_ascii_case (trim raw)) names

unfoldable pub parse_weekday : String → Result StrategyRuntimeError Weekday
parse_weekday raw =
    if names_day raw ("mon" ∷ "monday" ∷ [])
    then ok Weekday.mon
    else if names_day raw ("tue" ∷ "tues" ∷ "tuesday" ∷ [])
    then ok Weekday.tue
    else if names_day raw ("wed" ∷ "wednesday" ∷ [])
    then ok Weekday.wed
    else if names_day raw ("thu" ∷ "thurs" ∷ "thursday" ∷ [])
    then ok Weekday.thu
    else if names_day raw ("fri" ∷ "friday" ∷ [])
    then ok Weekday.fri
    else if names_day raw ("sat" ∷ "saturday" ∷ [])
    then ok Weekday.sat
    else if names_day raw ("sun" ∷ "sunday" ∷ [])
    then ok Weekday.sun
    else err (StrategyRuntimeError.invalid_allowed_day raw)

-- `#[from] RuleEngineError`
abbrev pub from_rule_engine {ℓ} :
    {A : Type ℓ} → Result RuleEngineError A → Result StrategyRuntimeError A
from_rule_engine (ok a) = ok a
from_rule_engine (err e) = err (StrategyRuntimeError.rule_engine e)

-- `Map::get`
abbrev get_value : {A : Type 0} → List (String × A) → String → Option A
get_value [] key = none
get_value ((k, value) ∷ entries) key = if k == key then some value else get_value entries key

unfoldable pub check_keys :
    {A : Type 0} → List (String × A) → Result StrategyRuntimeError (Unit {0})
check_keys [] = ok tt
check_keys ((key, value) ∷ entries) =
    guard (key == "long" || key == "short") (
      StrategyRuntimeError.invalid_entry_conditions
        (format ("unknown entry_conditions key `" ∷ key ∷ "`" ∷ [])))
    >> check_keys entries

module _ (X : Externals) where
  unfoldable pub parse_time : String → String → Result StrategyRuntimeError X.NaiveTime
  parse_time field raw = ok_or (X.time_from_str raw) (StrategyRuntimeError.invalid_time field raw)

  abbrev pub compile_condition : String → Result StrategyRuntimeError (CompiledCondition X)
  compile_condition raw = from_rule_engine (parse_condition X raw)

  abbrev pub compile_conditions :
      List String → Result StrategyRuntimeError (List (CompiledCondition X))
  compile_conditions raw_conditions = try_map compile_condition raw_conditions

  abbrev pub compile_item : String → X.Json → Result StrategyRuntimeError (CompiledCondition X)
  compile_item side item = do
    raw_condition ← ok_or (X.json_as_string item) (
        StrategyRuntimeError.invalid_entry_conditions
          (format ("entry_conditions." ∷ side ∷ " must contain only strings" ∷ [])))
    compile_condition raw_condition

  unfoldable pub compile_condition_array :
      Option X.Json → String → Result StrategyRuntimeError (List (CompiledCondition X))
  compile_condition_array none side = ok []
  compile_condition_array (some raw) side = do
    items ← ok_or (X.json_as_array raw) (
        StrategyRuntimeError.invalid_entry_conditions
          (format ("entry_conditions." ∷ side ∷ " must be an array of strings" ∷ [])))
    try_map (compile_item side) items

  unfoldable pub compile_entry_conditions :
      Option X.Json → Result StrategyRuntimeError (RuntimeEntryConditions X)
  unfolding check_keys compile_condition_array
  compile_entry_conditions none = ok (record { long = []; short = [] })
  compile_entry_conditions (some raw) = do
    entries ← ok_or (X.json_as_object raw) (
        StrategyRuntimeError.invalid_entry_conditions
          "entry_conditions must be an object with optional `long` and `short` arrays")
    check_keys entries
    long ← compile_condition_array (get_value entries "long") "long"
    short ← compile_condition_array (get_value entries "short") "short"
    ok (record { long = long; short = short })

  abbrev pub compile_window : TradeWindow → Result StrategyRuntimeError (RuntimeTradeWindow X)
  compile_window window = do
    start ← parse_time "session.trade_window.start" window.start
    end ← parse_time "session.trade_window.end" window.end
    ok (record { start = start; end = end })

  abbrev pub compile_flatten_rule : FlattenRule → Result StrategyRuntimeError (RuntimeFlattenRule X)
  compile_flatten_rule rule = do
    time ← try_option (parse_time "session.flatten_rule.time") rule.time
    ok (record { mode = rule.mode; time = time })

  abbrev pub compile_signal_plan :
      CompiledStrategy X → Result StrategyRuntimeError (RuntimeSignalPlan X)
  compile_signal_plan strategy = do
    primary ← compile_conditions strategy.signal_confirmation.primary_conditions
    secondary ← compile_conditions strategy.signal_confirmation.secondary_conditions
    regime_filter ← try_option compile_condition strategy.signal_confirmation.regime_filter
    sequence ← compile_conditions strategy.signal_confirmation.sequence
    ok (record {
      primary = primary;
      secondary = secondary;
      n_required = strategy.signal_confirmation.n_required;
      score_threshold = strategy.signal_confirmation.score_threshold;
      regime_filter = regime_filter;
      sequence = sequence;
    })

-- `.iter()` of an option
abbrev pub one_or_none {ℓ} : {A : Type ℓ} → Option A → List A
one_or_none none = []
one_or_none (some a) = a ∷ []

module _ {X : Externals} where
  -- `required as u32` keeps the low 32 bits.
  unfoldable pub validate_condition_requirements :
      CompiledStrategy X → CompiledCondition X → Result StrategyRuntimeError (Unit {0})
  unfolding timeframe_of required_bars get_bars
  validate_condition_requirements strategy condition =
      let timeframe = timeframe_of condition.expression in
      let declared = unwrap_or (get_bars strategy.warmup.bars_required timeframe) 0 in
      let required = required_bars condition.expression in
      do
        guard (any (λ t. timeframe_eq t timeframe) strategy.data_requirements.timeframes)
            (StrategyRuntimeError.undeclared_condition_timeframe condition.raw timeframe)
        guard (leb (required % 2 ^ 32) declared) (
            StrategyRuntimeError.insufficient_warmup_bars condition.raw timeframe required declared)

  -- The loop over all conditions.
  unfoldable pub validate_conditions :
      CompiledStrategy X → List (CompiledCondition X) → Result StrategyRuntimeError (Unit {0})
  unfolding validate_condition_requirements
  validate_conditions strategy [] = ok tt
  validate_conditions strategy (condition ∷ conditions) =
      validate_condition_requirements strategy condition >> validate_conditions strategy conditions

  abbrev pub all_conditions :
      RuntimeSignalPlan X
      → RuntimeEntryConditions X
      → List (CompiledCondition X)
      → List (CompiledCondition X)
  all_conditions plan entry exit =
      plan.primary
      ++ plan.secondary
      ++ one_or_none plan.regime_filter
      ++ plan.sequence
      ++ entry.long
      ++ entry.short
      ++ exit

  unfoldable pub compile :
      CompiledStrategy X → Result StrategyRuntimeError (RuntimeStrategyDefinition X)
  unfolding parse_time parse_weekday compile_entry_conditions validate_conditions
  compile strategy = do
    timezone ←
        ok_or (X.tz_from_str (trim strategy.session.timezone))
          (StrategyRuntimeError.invalid_timezone strategy.session.timezone)
    trade_window ← try_option (compile_window X) strategy.session.trade_window
    no_new_entries_after ←
        try_option (parse_time X "session.no_new_entries_after")
          strategy.session.no_new_entries_after
    flatten_rule ← try_option (compile_flatten_rule X) strategy.session.flatten_rule
    allowed_days ← try_map parse_weekday strategy.session.allowed_days
    signal_plan ← compile_signal_plan X strategy
    entry_conditions ← compile_entry_conditions X strategy.entry_rules.entry_conditions
    exit_conditions ← compile_conditions X strategy.exit_rules.exit_conditions
    validate_conditions strategy (all_conditions signal_plan entry_conditions exit_conditions)
    ok (record {
      strategy = strategy;
      timezone = timezone;
      trade_window = trade_window;
      no_new_entries_after = no_new_entries_after;
      flatten_rule = flatten_rule;
      allowed_days = allowed_days;
      signal_plan = signal_plan;
      entry_conditions = entry_conditions;
      exit_conditions = exit_conditions;
    })
