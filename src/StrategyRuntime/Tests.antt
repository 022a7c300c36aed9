-- ===== src/StrategyRuntime/Tests.antt =====
-- Runs of the strategy runtime on rising bars of one minute.
use tv_bot_core.Base.{join}
use tv_bot_core.Base.{show_i64}
use tv_bot_core.Base.{format}
use tv_bot_core.RuleEngine.SignalPlan.{score_ratio}
use tv_bot_core.StrategyRuntime.Engine.{decide}
use tv_bot_core.StrategyRuntime.Signals.{choose_signal_direction}
use tv_bot_core.StrategyRuntime.Intents.{position_side}
use tv_bot_core.Base.{◌+ℤ◌}
use tv_bot_core.Indicators.{latest_bar}
use tv_bot_core.Indicators.{simple_moving_average}
use tv_bot_core.RuleEngine.Trends.{close_above_sma}
use tv_bot_core.RuleEngine.Dispatch.{evaluate_condition}
use tv_bot_core.RuleEngine.SignalPlan.{sequence_evaluations}
use tv_bot_core.RuleEngine.SignalPlan.{evaluate_signal_plan}
use tv_bot_core.StrategyRuntime.Signals.{evaluate_side_signal}
use tv_bot_core.StrategyRuntime.Engine.{hold_back}
use mathlib.Core.Path.{subst}
use tv_bot_core.Base.{All, String, ◌↔◌, parse_usize}
use tv_bot_core.Base.{split}
use tv_bot_core.Base.{strip_last}
use tv_bot_core.Base.{split_once}
use tv_bot_core.Base.{trim}
use tv_bot_core.RuleEngine.Parse.{parse_condition}
use tv_bot_core.Base.{
  pos, true, false, Option, none, some, List, [], ◌∷◌, ◌≡◌, ok, Returns, refl, arith,
}
use tv_bot_core.CoreTypes.{
  SignalDecision, Timeframe, CompiledStrategy, WarmupStatus, BrokerSyncState, SignalDirection,
  ExecutionIntent, TradeSide, EntryOrderType, BrokerPositionSnapshot,
}
use tv_bot_core.Sample.{cents, gold, rising, holding}
use tv_bot_core.RuleEngine.Conditions.{EvaluationSide, ConditionExpression, CompiledCondition}
use tv_bot_core.StrategyRuntime.Definition.{
  StrategyRuntimeState, RuntimeStrategyDefinition, StrategyMarketSnapshot, StrategyEvaluation,
}
use tv_bot_core.StrategyRuntime.Compile.{compile}
use tv_bot_core.StrategyRuntime.Intents.{reset_state}
use tv_bot_core.StrategyRuntime.Engine.{evaluate}
use tv_bot_core.Indicators.{BarInput}
use tv_bot_core.Indicators.Series.{IsUniform}
use tv_bot_core.RuleEngine.Evaluate.{get_bars}
use tv_bot_core.StrategyRuntime.Compile.{all_conditions}
use tv_bot_core.StrategyRuntime.Session.{
  session_state, session_end_reached, day_allowed, weekday_now, local_now,
}
use tv_bot_core.StrategyRuntime.Entries.{EntersFor, evaluate-enter}
use tv_bot_core.StrategyRuntime.Exits.{evaluate-closes, no_exit_conditions-exit}
use tv_bot_core.StrategyRuntime.Repeats.{Run, NoEntry, evaluate_each, evaluate-again}
use tv_bot_core.StrategyRuntime.Compiled.{IsDeclared, compile-IsDeclared}
use tv_bot_core.StrategyRuntime.Warm.{compile-evaluate, some_injective}
use tv_bot_core.StrategyRuntime.Windows.{EntriesOpen, session_state-EntriesOpen}

abbrev trend : CompiledStrategy cents
trend = record gold {
  data_requirements = record gold.data_requirements { timeframes = Timeframe.one_minute ∷ [] };
  warmup = record { bars_required = (Timeframe.one_minute, 3) ∷ []; ready_requires_all = true };
  signal_confirmation = record gold.signal_confirmation {
    primary_conditions = "close_above_sma(period=2)" ∷ [];
  };
  entry_rules = record gold.entry_rules { short_enabled = false };
}

abbrev above : CompiledCondition cents
above = record {
  raw = "close_above_sma(period=2)";
  expression =
      ConditionExpression.close_above_sma (record { timeframe = Timeframe.one_minute; period = 2 });
}

abbrev compiled : RuntimeStrategyDefinition cents
compiled = record {
  strategy = trend;
  timezone = "America/New_York";
  trade_window = none;
  no_new_entries_after = none;
  flatten_rule = none;
  allowed_days = [];
  signal_plan = record {
    primary = above ∷ [];
    secondary = [];
    n_required = none;
    score_threshold = none;
    regime_filter = none;
    sequence = [];
  };
  entry_conditions = record { long = []; short = [] };
  exit_conditions = [];
}

abbrev observed : Option (BrokerPositionSnapshot cents) → StrategyMarketSnapshot cents
observed position = record {
  now = pos 36000;
  warmup_status = WarmupStatus.ready;
  bars_by_timeframe = (Timeframe.one_minute, rising) ∷ [];
  position = position;
  market_data_degraded = false;
  broker_sync_state = BrokerSyncState.synchronized;
  reconnect_review_required = false;
}

trend_compiles : compile trend ≡ ok compiled
unfolding compile parse_condition trim split_once strip_last split parse_usize
trend_compiles = refl

abbrev signal_at : List String → SignalDecision cents
signal_at rationale = record {
  strategy_id = "gc_momentum_v1";
  direction = SignalDirection.long;
  score = some (pos 1);
  rationale = rationale;
  occurred_at = pos 36000;
}

abbrev passed_line : String
passed_line = "close_above_sma(period=2) passed (close 20 is above SMA 17)"

abbrev after_entry : StrategyRuntimeState
after_entry = record reset_state {
  long_signal_active = true;
  last_signal_direction = some SignalDirection.long;
}

abbrev bought : StrategyEvaluation cents
bought = record {
  signal = signal_at (passed_line ∷ []);
  intent = some (
      ExecutionIntent.enter TradeSide.buy EntryOrderType.market 1 true
        "gc_momentum_v1 long entry: close_above_sma(period=2) passed (close 20 is above SMA 17)");
}

abbrev waiting : StrategyEvaluation cents
waiting = record { signal = signal_at (passed_line ∷ []); intent = none }

abbrev after_exit : StrategyRuntimeState
after_exit = record after_entry { long_exit_active = true }

abbrev sold : StrategyEvaluation cents
sold = record {
  signal = signal_at (passed_line ∷ "explicit exit conditions matched" ∷ []);
  intent = some (ExecutionIntent.exit "explicit exit conditions matched");
}

evaluate-enter_example :
    EntersFor compiled reset_state
      (observed none)
      SignalDirection.long
      TradeSide.buy
      EntryOrderType.market
      1
      true
unfolding evaluate hold_back evaluate_side_signal evaluate_signal_plan sequence_evaluations
    evaluate_condition close_above_sma simple_moving_average latest_bar ◌+ℤ◌ position_side
    choose_signal_direction decide score_ratio session_state format show_i64 join
evaluate-enter_example =
    evaluate-enter compiled reset_state (observed none) after_entry bought TradeSide.buy
      EntryOrderType.market 1 true
      "gc_momentum_v1 long entry: close_above_sma(period=2) passed (close 20 is above SMA 17)" refl
      refl

abbrev lasting : Run compiled
lasting = (observed none, waiting) ∷ (observed (some (holding (pos 1))), sold) ∷ []

evaluate-again_example : All (NoEntry compiled) lasting
unfolding evaluate hold_back evaluate_side_signal evaluate_signal_plan sequence_evaluations
    evaluate_condition close_above_sma simple_moving_average latest_bar ◌+ℤ◌ position_side
    choose_signal_direction decide score_ratio session_state format show_i64 join evaluate_each
evaluate-again_example =
    evaluate-again compiled (observed none ∷ observed none ∷ observed (some (holding (pos 1))) ∷ [])
      reset_state (observed none, bought) lasting refl (refl, (refl, (refl, tt))) (refl, (refl, tt))

evaluate-closes_example : (true ≡ true) × (true ≡ true) × (false ≡ false) × (true ≡ true)
unfolding evaluate hold_back evaluate_side_signal evaluate_signal_plan sequence_evaluations
    evaluate_condition close_above_sma simple_moving_average latest_bar ◌+ℤ◌ position_side
    choose_signal_direction decide score_ratio session_state format show_i64
evaluate-closes_example =
    evaluate-closes compiled reset_state (observed (some (holding (pos 1)))) after_exit sold refl
      refl

no_exit_conditions-exit_example :
    sold.intent ≡ some (ExecutionIntent.exit "explicit exit conditions matched")
unfolding evaluate position_side hold_back session_state evaluate_side_signal evaluate_signal_plan
    sequence_evaluations evaluate_condition close_above_sma simple_moving_average latest_bar ◌+ℤ◌
    choose_signal_direction decide score_ratio format show_i64
no_exit_conditions-exit_example =
    no_exit_conditions-exit compiled reset_state (observed (some (holding (pos 1))))
      EvaluationSide.long after_exit sold refl refl refl refl refl refl

session_state-EntriesOpen_example :
    (((session_state compiled (observed none) false).0 ≡ true)
      ↔ EntriesOpen compiled (observed none) false)
    × (EntriesOpen compiled (observed none) false
        → session_end_reached compiled
            (day_allowed compiled (weekday_now compiled (observed none)))
            (local_now compiled (observed none))
          ≡ false)
session_state-EntriesOpen_example = session_state-EntriesOpen compiled (observed none) false

compile-IsDeclared_example :
    (compiled.strategy ≡ trend)
    × All
        (IsDeclared trend)
        (all_conditions compiled.signal_plan compiled.entry_conditions compiled.exit_conditions)
unfolding compile parse_condition trim split_once strip_last split parse_usize
compile-IsDeclared_example = compile-IsDeclared trend compiled refl

rising-IsUniform :
    (timeframe : Timeframe) (bars : List (BarInput cents))
    → get_bars (observed none).bars_by_timeframe timeframe ≡ some bars
    → IsUniform bars
unfolding get_bars
rising-IsUniform Timeframe.one_minute bars h = subst IsUniform (some_injective h) (refl, (refl, tt))
rising-IsUniform Timeframe.one_second bars h = cc
rising-IsUniform Timeframe.five_minute bars h = cc

compile-evaluate_example : Returns (evaluate compiled reset_state (observed none))
unfolding compile parse_condition trim split_once strip_last split parse_usize
compile-evaluate_example =
    compile-evaluate compiled (observed none) trend reset_state refl refl
      ((omega arith, omega arith), tt) rising-IsUniform
