-- ===== src/StrategyRuntime/Intents.antt =====
-- crates/strategy_runtime/src/lib.rs: the intents of a decision, and the comparisons it makes.
use tv_bot_core.Base.{
  ℕ, ℤ, pos, leb_ℤ, Bool, true, false, Option, none, some, List, [], ◌∷◌, String, not, ◌||◌, format,
  if◌then◌else◌, take, join, unwrap_or,
}
use tv_bot_core.External.{Externals}
use tv_bot_core.CoreTypes.{
  SignalDirection, ExecutionIntent, TradeSide, CompiledStrategy, PositionSizing, PositionSizingMode,
  BrokerPreference, BrokerPositionSnapshot, BrokerSyncState,
}
use tv_bot_core.RuleEngine.Conditions.{EvaluationSide}
use tv_bot_core.StrategyRuntime.Definition.{StrategyRuntimeState, StrategyEvaluation}

-- The comparisons of `evaluate`.
abbrev pub is_mismatch : BrokerSyncState → Bool
is_mismatch BrokerSyncState.mismatch = true
is_mismatch _ = false

abbrev pub is_synchronized : BrokerSyncState → Bool
is_synchronized BrokerSyncState.synchronized = true
is_synchronized _ = false

abbrev pub is_long : Option EvaluationSide → Bool
is_long (some EvaluationSide.long) = true
is_long _ = false

abbrev pub is_short : Option EvaluationSide → Bool
is_short (some EvaluationSide.short) = true
is_short _ = false

unfoldable pub opposite_direction : SignalDirection → EvaluationSide → Bool
opposite_direction SignalDirection.long EvaluationSide.short = true
opposite_direction SignalDirection.short EvaluationSide.long = true
opposite_direction _ _ = false

-- `reset_state`
abbrev pub reset_state : StrategyRuntimeState
reset_state = record {
  long_signal_active = false;
  short_signal_active = false;
  long_exit_active = false;
  short_exit_active = false;
  last_signal_direction = some SignalDirection.flat;
}

-- `Option::or`
abbrev or_other : Option ℕ → Option ℕ → Option ℕ
or_other none other = other
or_other (some n) other = some n

abbrev allows_bot : BrokerPreference → Bool
allows_bot BrokerPreference.bot_allowed = true
allows_bot _ = false

abbrev side_of_quantity : ℤ → Option EvaluationSide
side_of_quantity quantity =
    if not (leb_ℤ quantity (pos 0))
    then some EvaluationSide.long
    else if not (leb_ℤ (pos 0) quantity)
    then some EvaluationSide.short
    else none

abbrev pub exit_edge : StrategyRuntimeState → EvaluationSide → Bool
exit_edge state EvaluationSide.long = not state.long_exit_active
exit_edge state EvaluationSide.short = not state.short_exit_active

abbrev pub entry_edge : StrategyRuntimeState → SignalDirection → Bool
entry_edge state SignalDirection.long = not state.long_signal_active
entry_edge state SignalDirection.short = not state.short_signal_active
entry_edge state SignalDirection.flat = false

module _ {X : Externals} where
  unfoldable pub position_side : Option (BrokerPositionSnapshot X) → Option EvaluationSide
  position_side none = none
  position_side (some position) = side_of_quantity position.quantity

  abbrev sized : PositionSizingMode → PositionSizing X → ℕ
  sized PositionSizingMode.fixed sizing = unwrap_or sizing.contracts 1
  sized PositionSizingMode.risk_based sizing =
      unwrap_or
        (or_other (or_other sizing.fallback_fixed_contracts sizing.min_contracts)
          sizing.max_contracts)
        1

  unfoldable pub requested_entry_quantity : CompiledStrategy X → ℕ
  requested_entry_quantity strategy = sized strategy.position_sizing.mode strategy.position_sizing

  unfoldable pub protective_brackets_expected : CompiledStrategy X → Bool
  protective_brackets_expected strategy =
      not (allows_bot strategy.execution.broker_preferences.stop_loss)
      || not (allows_bot strategy.execution.broker_preferences.take_profit)

  abbrev entering : CompiledStrategy X → TradeSide → String → List String → ExecutionIntent
  entering strategy side word rationale =
      ExecutionIntent.enter side strategy.entry_rules.entry_order_type
        (requested_entry_quantity strategy) (protective_brackets_expected strategy)
        (format (
          strategy.metadata.strategy_id
          ∷ " "
          ∷ word
          ∷ " entry: "
          ∷ join "; " (take 3 rationale)
          ∷ []))

  -- No intent is the `unreachable!` arm, for a flat direction; `evaluate` asks for none there.
  unfoldable pub entry_intent :
      CompiledStrategy X → SignalDirection → List String → Option ExecutionIntent
  unfolding requested_entry_quantity protective_brackets_expected
  entry_intent strategy SignalDirection.long rationale =
      some (entering strategy TradeSide.buy "long" rationale)
  entry_intent strategy SignalDirection.short rationale =
      some (entering strategy TradeSide.sell "short" rationale)
  entry_intent strategy SignalDirection.flat rationale = none

  abbrev pub flat_evaluation :
      CompiledStrategy X → X.DateTime → Option ExecutionIntent → List String → StrategyEvaluation X
  flat_evaluation strategy occurred_at intent rationale = record {
    signal = record {
      strategy_id = strategy.metadata.strategy_id;
      direction = SignalDirection.flat;
      score = none;
      rationale = rationale;
      occurred_at = occurred_at;
    };
    intent = intent;
  }
