-- ===== src/StrategyRuntime/Engine.antt =====
-- `StrategyRuntimeEngine::evaluate` of crates/strategy_runtime/src/lib.rs.
use tv_bot_core.Base.{
  Bool, true, false, Option, none, some, List, [], ◌∷◌, ◌++◌, String, Result, ok, ◌>>=◌, not, ◌&&◌,
  ◌||◌, format, if◌then◌else◌, is_some, unwrap_or,
}
use tv_bot_core.External.{Externals}
use tv_bot_core.CoreTypes.{SignalDirection, ExecutionIntent, WarmupStatus, is_ready}
use tv_bot_core.RuleEngine.Conditions.{EvaluationSide, RuleEvaluationContext, RuleSetEvaluation}
use tv_bot_core.StrategyRuntime.Definition.{
  StrategyRuntimeState, StrategyRuntimeError, RuntimeStrategyDefinition, StrategyMarketSnapshot,
  StrategyEvaluation, SideSignalEvaluation,
}
use tv_bot_core.StrategyRuntime.Session.{debug_sync_state, session_state, warmup_buffers_ready}
use tv_bot_core.StrategyRuntime.Signals.{
  empty_rule_set, evaluate_all_conditions, evaluate_side_signal, choose_signal_direction,
}
use tv_bot_core.StrategyRuntime.Intents.{
  is_mismatch, is_synchronized, is_long, is_short, opposite_direction, reset_state, exit_edge,
  entry_edge, position_side, entry_intent, flat_evaluation,
}

abbrev debug_warmup : WarmupStatus → String
debug_warmup WarmupStatus.not_loaded = "NotLoaded"
debug_warmup WarmupStatus.loaded = "Loaded"
debug_warmup WarmupStatus.warming = "Warming"
debug_warmup WarmupStatus.ready = "Ready"
debug_warmup WarmupStatus.failed = "Failed"

abbrev debug_bool : Bool → String
debug_bool true = "true"
debug_bool false = "false"

module _ {X : Externals} where
  -- The early returns of `evaluate`, each of which resets the state.
  unfoldable pub hold_back :
      RuntimeStrategyDefinition X → StrategyMarketSnapshot X → Option (StrategyEvaluation X)
  unfolding warmup_buffers_ready
  hold_back definition snapshot =
      let failsafes = definition.strategy.failsafes in
      let flat = flat_evaluation definition.strategy snapshot.now in
      if snapshot.reconnect_review_required
        && unwrap_or failsafes.pause_on_reconnect_until_reviewed false
      then some (
          flat (some (ExecutionIntent.pause_strategy "reconnect review is still required"))
            ("reconnect review is still required" ∷ []))
      else if is_mismatch snapshot.broker_sync_state && failsafes.pause_on_broker_sync_mismatch
      then some (
          flat (some (ExecutionIntent.pause_strategy "broker sync mismatch requires review"))
            ("broker sync mismatch requires review" ∷ []))
      else if not (is_ready snapshot.warmup_status)
          || not (warmup_buffers_ready definition snapshot)
      then some (
          flat none (
            format ("warmup is not ready (" ∷ debug_warmup snapshot.warmup_status ∷ ")" ∷ []) ∷ []))
      else if (snapshot.market_data_degraded || not (is_synchronized snapshot.broker_sync_state))
          && is_some snapshot.position
      then some (
          flat none (
            format (
              "existing position is left broker-side because runtime health is degraded (data_degraded="
              ∷ debug_bool snapshot.market_data_degraded
              ∷ ", broker_sync="
              ∷ debug_sync_state snapshot.broker_sync_state
              ∷ ")"
              ∷ [])
            ∷ []))
      else none

  abbrev pub context_of : StrategyMarketSnapshot X → RuleEvaluationContext X
  context_of snapshot = record {
    bars_by_timeframe = snapshot.bars_by_timeframe;
    now = snapshot.now;
    position = snapshot.position;
  }

  abbrev pub evaluate_exit :
      RuntimeStrategyDefinition X
      → Option EvaluationSide
      → RuleEvaluationContext X
      → Result StrategyRuntimeError (RuleSetEvaluation X)
  evaluate_exit definition none context = ok (empty_rule_set X)
  evaluate_exit definition (some side) context =
      evaluate_all_conditions definition.exit_conditions side context

  abbrev pub with_position :
      RuntimeStrategyDefinition X
      → StrategyRuntimeState
      → SignalDirection
      → Bool
      → Bool
      → List String
      → EvaluationSide
      → Option ExecutionIntent × List String
  with_position definition state direction exit_matched entries_allowed rationale side =
      if exit_matched && exit_edge state side
      then (
        some (ExecutionIntent.exit "explicit exit conditions matched"),
        rationale ++ "explicit exit conditions matched" ∷ [],
      )
      else if definition.strategy.exit_rules.exit_on_opposite_signal
          && opposite_direction direction side
      then (
        some (ExecutionIntent.exit "opposite signal matched"),
        rationale ++ "opposite signal matched" ∷ [],
      )
      else if entries_allowed && opposite_direction direction side
      then (entry_intent definition.strategy direction rationale, rationale)
      else (none, rationale)

  abbrev pub without_position :
      RuntimeStrategyDefinition X
      → StrategyRuntimeState
      → SignalDirection
      → Bool
      → List String
      → Option ExecutionIntent × List String
  without_position definition state direction entries_allowed rationale =
      if entries_allowed && entry_edge state direction
      then (entry_intent definition.strategy direction rationale, rationale)
      else (none, rationale)

  abbrev on_side :
      RuntimeStrategyDefinition X
      → StrategyRuntimeState
      → SignalDirection
      → Bool
      → Bool
      → List String
      → Option EvaluationSide
      → Option ExecutionIntent × List String
  on_side definition state direction exit_matched entries_allowed rationale none =
      without_position definition state direction entries_allowed rationale
  on_side definition state direction exit_matched entries_allowed rationale (some side) =
      with_position definition state direction exit_matched entries_allowed rationale side

  -- The choice of the intent, with the rationale that it may add to.
  unfoldable pub decide :
      RuntimeStrategyDefinition X
      → StrategyRuntimeState
      → Option EvaluationSide
      → SignalDirection
      → Bool
      → Bool
      → Bool
      → List String
      → Option ExecutionIntent × List String
  unfolding opposite_direction entry_intent
  decide definition state side direction exit_matched entries_allowed flatten_due rationale =
      if flatten_due
      then (
        some (ExecutionIntent.flatten "session flatten rule triggered"),
        rationale ++ "session flatten rule triggered" ∷ [],
      )
      else on_side definition state direction exit_matched entries_allowed rationale side

  abbrev pub next_state :
      SideSignalEvaluation X
      → SideSignalEvaluation X
      → Option EvaluationSide
      → Bool
      → SignalDirection
      → StrategyRuntimeState
  next_state long_signal short_signal side exit_matched direction = record {
    long_signal_active = long_signal.active;
    short_signal_active = short_signal.active;
    long_exit_active = is_long side && exit_matched;
    short_exit_active = is_short side && exit_matched;
    last_signal_direction = some direction;
  }

  abbrev pub decided :
      RuntimeStrategyDefinition X
      → StrategyRuntimeState
      → StrategyMarketSnapshot X
      → SideSignalEvaluation X
      → SideSignalEvaluation X
      → RuleSetEvaluation X
      → StrategyRuntimeState × StrategyEvaluation X
  decided definition state snapshot long_signal short_signal exit =
      let (direction, score, reasons) = choose_signal_direction long_signal short_signal in
      let (entries_allowed, blockers, flatten_due) =
        session_state definition snapshot (not (is_synchronized snapshot.broker_sync_state)) in
      let side = position_side snapshot.position in
      let (intent, rationale) =
        decide definition state side direction exit.matched entries_allowed flatten_due
          (reasons ++ blockers) in
      (
        next_state long_signal short_signal side exit.matched direction,
        record {
          signal = record {
            strategy_id = definition.strategy.metadata.strategy_id;
            direction = direction;
            score = score;
            rationale = rationale;
            occurred_at = snapshot.now;
          };
          intent = intent;
        },
      )

  abbrev pub evaluate_rules :
      RuntimeStrategyDefinition X
      → StrategyRuntimeState
      → StrategyMarketSnapshot X
      → Result StrategyRuntimeError (StrategyRuntimeState × StrategyEvaluation X)
  evaluate_rules definition state snapshot = do
    let context = context_of snapshot
    long_signal ← evaluate_side_signal definition EvaluationSide.long context
    short_signal ← evaluate_side_signal definition EvaluationSide.short context
    exit ← evaluate_exit definition (position_side snapshot.position) context
    ok (decided definition state snapshot long_signal short_signal exit)

  abbrev pub after_hold :
      RuntimeStrategyDefinition X
      → StrategyRuntimeState
      → StrategyMarketSnapshot X
      → Option (StrategyEvaluation X)
      → Result StrategyRuntimeError (StrategyRuntimeState × StrategyEvaluation X)
  after_hold definition state snapshot (some evaluation) = ok (reset_state, evaluation)
  after_hold definition state snapshot none = evaluate_rules definition state snapshot

  -- The state after, and the evaluation. On an error the state is left as it was.
  unfoldable pub evaluate :
      RuntimeStrategyDefinition X
      → StrategyRuntimeState
      → StrategyMarketSnapshot X
      → Result StrategyRuntimeError (StrategyRuntimeState × StrategyEvaluation X)
  evaluate definition state snapshot =
      after_hold definition state snapshot (hold_back definition snapshot)
