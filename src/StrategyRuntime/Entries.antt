-- ===== src/StrategyRuntime/Entries.antt =====
-- When `evaluate` of crates/strategy_runtime/src/lib.rs enters, exits and flattens.
use tv_bot_core.StrategyRuntime.Signals.{evaluate_side_signal}
use mathlib.Core.Path.{subst}
use tv_bot_core.Base.{
  ok_injective, ◌∙◌, ℕ, Bool, true, false, Option, none, some, List, ◌≡◌, ◌⊎◌, String, ok, not,
  is_some, refl, arith, inl, inr, >>=-eq-ok, ap,
}
use tv_bot_core.External.{Externals}
use tv_bot_core.CoreTypes.{SignalDirection, ExecutionIntent, TradeSide, EntryOrderType, is_ready}
use tv_bot_core.RuleEngine.Conditions.{RuleSetEvaluation, EvaluationSide}
use tv_bot_core.StrategyRuntime.Definition.{
  StrategyRuntimeState, RuntimeStrategyDefinition, StrategyMarketSnapshot, StrategyEvaluation,
  SideSignalEvaluation,
}
use tv_bot_core.StrategyRuntime.Session.{warmup_buffers_ready}
use tv_bot_core.StrategyRuntime.Windows.{EntriesOpen, session_state-EntriesOpen}
use tv_bot_core.StrategyRuntime.Intents.{
  is_synchronized, opposite_direction, entry_edge, position_side, requested_entry_quantity,
  protective_brackets_expected, entry_intent, reset_state,
}
use tv_bot_core.StrategyRuntime.Engine.{
  evaluate_exit, context_of, hold_back, decide, decided, evaluate_rules, after_hold, evaluate,
}

abbrev side_of : SignalDirection → Option TradeSide
side_of SignalDirection.long = some TradeSide.buy
side_of SignalDirection.short = some TradeSide.sell
side_of SignalDirection.flat = none

module _ {X : Externals} (definition : RuntimeStrategyDefinition X) where
  after_hold-cases :
      (state next : StrategyRuntimeState) (snapshot : StrategyMarketSnapshot X)
      (evaluation : StrategyEvaluation X) (held : Option (StrategyEvaluation X))
      → after_hold definition state snapshot held ≡ ok (next, evaluation)
      → ((held ≡ some evaluation) × (next ≡ reset_state))
        ⊎ ((held ≡ none) × (evaluate_rules definition state snapshot ≡ ok (next, evaluation)))
  after_hold-cases state next snapshot evaluation none h = inr (refl, h)
  after_hold-cases state next snapshot evaluation (some held) h = inl (cc, cc)

  -- An evaluation either is held back, and resets the state, or decides by the rules.
  pub evaluate-cases :
      (state next : StrategyRuntimeState) (snapshot : StrategyMarketSnapshot X)
      (evaluation : StrategyEvaluation X)
      → evaluate definition state snapshot ≡ ok (next, evaluation)
      → ((hold_back definition snapshot ≡ some evaluation) × (next ≡ reset_state))
        ⊎ ((hold_back definition snapshot ≡ none)
            × (evaluate_rules definition state snapshot ≡ ok (next, evaluation)))
  unfolding evaluate
  evaluate-cases state next snapshot evaluation h =
      after_hold-cases state next snapshot evaluation (hold_back definition snapshot) h

  pub hold_back-none :
      (snapshot : StrategyMarketSnapshot X)
      → hold_back definition snapshot ≡ none
      → (is_ready snapshot.warmup_status ≡ true)
        × (warmup_buffers_ready definition snapshot ≡ true)
        × ((is_some snapshot.position ≡ false)
            ⊎ ((snapshot.market_data_degraded ≡ false)
                × (is_synchronized snapshot.broker_sync_state ≡ true)))
  unfolding hold_back
  hold_back-none snapshot h = ground arith

  -- What an entry of `decide` comes from.
  decide-enter :
      (state : StrategyRuntimeState) (position : Option EvaluationSide)
      (direction : SignalDirection) (exit_matched entries_allowed flatten_due : Bool)
      (rationale told : List String) (side : TradeSide) (order_type : EntryOrderType) (quantity : ℕ)
      (brackets : Bool) (reason : String)
      → decide definition state position direction exit_matched entries_allowed flatten_due
          rationale
        ≡ (some (ExecutionIntent.enter side order_type quantity brackets reason), told)
      → (entries_allowed ≡ true)
        × (flatten_due ≡ false)
        × (side_of direction ≡ some side)
        × (order_type ≡ definition.strategy.entry_rules.entry_order_type)
        × (quantity ≡ requested_entry_quantity definition.strategy)
        × (brackets ≡ protective_brackets_expected definition.strategy)
        × (((position ≡ none) × (entry_edge state direction ≡ true))
            ⊎ ((held : EvaluationSide) × (position ≡ some held)
                × (opposite_direction direction held ≡ true)))
  unfolding decide entry_intent
  decide-enter state none SignalDirection.long exit_matched entries_allowed flatten_due rationale
        told side order_type quantity brackets reason h =
      ground arith
  decide-enter state none SignalDirection.short exit_matched entries_allowed flatten_due rationale
        told side order_type quantity brackets reason h =
      ground arith
  decide-enter state none SignalDirection.flat exit_matched entries_allowed flatten_due rationale
        told side order_type quantity brackets reason h =
      ground arith
  decide-enter state (some EvaluationSide.long) SignalDirection.long exit_matched entries_allowed
        flatten_due rationale told side order_type quantity brackets reason h =
      ground arith
  decide-enter state (some EvaluationSide.long) SignalDirection.short exit_matched entries_allowed
        flatten_due rationale told side order_type quantity brackets reason h =
      ground arith
  decide-enter state (some EvaluationSide.long) SignalDirection.flat exit_matched entries_allowed
        flatten_due rationale told side order_type quantity brackets reason h =
      ground arith
  decide-enter state (some EvaluationSide.short) SignalDirection.long exit_matched entries_allowed
        flatten_due rationale told side order_type quantity brackets reason h =
      ground arith
  decide-enter state (some EvaluationSide.short) SignalDirection.short exit_matched entries_allowed
        flatten_due rationale told side order_type quantity brackets reason h =
      ground arith
  decide-enter state (some EvaluationSide.short) SignalDirection.flat exit_matched entries_allowed
        flatten_due rationale told side order_type quantity brackets reason h =
      ground arith

  hold_back-enter :
      (snapshot : StrategyMarketSnapshot X) (evaluation : StrategyEvaluation X) (side : TradeSide)
      (order_type : EntryOrderType) (quantity : ℕ) (brackets : Bool) (reason : String)
      → hold_back definition snapshot ≡ some evaluation
      → ¬ (
          evaluation.intent ≡ some (ExecutionIntent.enter side order_type quantity brackets reason))
  unfolding hold_back
  hold_back-enter snapshot evaluation side order_type quantity brackets reason h e = ground arith

module _ {X : Externals} (definition : RuntimeStrategyDefinition X) (state : StrategyRuntimeState)
    (snapshot : StrategyMarketSnapshot X) where
  -- What stands behind an entry that is decided in `direction`.
  abbrev pub EntersFor : SignalDirection → TradeSide → EntryOrderType → ℕ → Bool → Type 0
  EntersFor direction side order_type quantity brackets =
      (is_ready snapshot.warmup_status ≡ true)
      × (warmup_buffers_ready definition snapshot ≡ true)
      × EntriesOpen definition snapshot (not (is_synchronized snapshot.broker_sync_state))
      × (side_of direction ≡ some side)
      × (order_type ≡ definition.strategy.entry_rules.entry_order_type)
      × (quantity ≡ requested_entry_quantity definition.strategy)
      × (brackets ≡ protective_brackets_expected definition.strategy)
      × (((position_side snapshot.position ≡ none) × (entry_edge state direction ≡ true))
          ⊎ ((held : EvaluationSide) × (position_side snapshot.position ≡ some held)
              × (opposite_direction direction held ≡ true)))

  decided-enter :
      (long_signal short_signal : SideSignalEvaluation X) (exit : RuleSetEvaluation X)
      (next : StrategyRuntimeState) (evaluation : StrategyEvaluation X) (side : TradeSide)
      (order_type : EntryOrderType) (quantity : ℕ) (brackets : Bool) (reason : String)
      → hold_back definition snapshot ≡ none
      → decided definition state snapshot long_signal short_signal exit ≡ (next, evaluation)
      → evaluation.intent ≡ some (ExecutionIntent.enter side order_type quantity brackets reason)
      → EntersFor evaluation.signal.direction side order_type quantity brackets
  decided-enter long_signal short_signal exit next evaluation side order_type quantity brackets
        reason none_held e i =
      let now_decided = decided definition state snapshot long_signal short_signal exit in
      let intent_now : now_decided.1.intent
          ≡ some (ExecutionIntent.enter side order_type quantity brackets reason) =
        ap (λ d. d.1.intent) e ∙ i in
      let direction_now : now_decided.1.signal.direction ≡ evaluation.signal.direction =
        ap (λ d. d.1.signal.direction) e in
      let (allowed, due, way, o, q, b, why) =
        decide-enter definition state (position_side snapshot.position) _ _ _ _ _
          now_decided.1.signal.rationale side order_type quantity brackets reason
          (ap (λ o. (o, now_decided.1.signal.rationale)) intent_now) in
      let (ready, buffers, _) = hold_back-none definition snapshot none_held in
      subst (λ d. EntersFor d side order_type quantity brackets) direction_now
        (
          ready,
          buffers,
          (session_state-EntriesOpen definition snapshot _).0.0 allowed,
          way,
          o,
          q,
          b,
          why,
        )

  -- The evaluation that `evaluate_rules` returns is decided on the signals of both sides.
  pub evaluate_rules-decided :
      (next : StrategyRuntimeState) (evaluation : StrategyEvaluation X)
      → evaluate_rules definition state snapshot ≡ ok (next, evaluation)
      → (long_signal : SideSignalEvaluation X) × (short_signal : SideSignalEvaluation X)
        × (exit : RuleSetEvaluation X) × (evaluate_side_signal definition EvaluationSide.long
              (context_of snapshot)
            ≡ ok long_signal)
        × (evaluate_side_signal definition EvaluationSide.short (context_of snapshot)
            ≡ ok short_signal)
        × (evaluate_exit definition (position_side snapshot.position) (context_of snapshot)
            ≡ ok exit)
        × (decided definition state snapshot long_signal short_signal exit ≡ (next, evaluation))
  evaluate_rules-decided next evaluation h =
      let (long_signal, l, h1) =
        >>=-eq-ok (evaluate_side_signal definition EvaluationSide.long (context_of snapshot)) _ h in
      let (short_signal, s, h2) =
        >>=-eq-ok (evaluate_side_signal definition EvaluationSide.short (context_of snapshot)) _
          h1 in
      let (exit, x, h3) =
        >>=-eq-ok (evaluate_exit definition (position_side snapshot.position) (context_of snapshot))
          _ h2 in
      (long_signal, short_signal, exit, l, s, x, ok_injective refl h3)

  -- When an evaluation asks to enter, the warmup is ready, the session and the health of data and
  -- broker allow entries, the order has the side of the signal's direction and the type, quantity
  -- and brackets of the strategy, and there is either no position and a signal that was not active
  -- in the state before, or a position on the other side.
  pub evaluate-enter :
      (next : StrategyRuntimeState) (evaluation : StrategyEvaluation X) (side : TradeSide)
      (order_type : EntryOrderType) (quantity : ℕ) (brackets : Bool) (reason : String)
      → evaluate definition state snapshot ≡ ok (next, evaluation)
      → evaluation.intent ≡ some (ExecutionIntent.enter side order_type quantity brackets reason)
      → EntersFor evaluation.signal.direction side order_type quantity brackets
  evaluate-enter next evaluation side order_type quantity brackets reason h i =
      elim (evaluate-cases definition state next snapshot evaluation h) [
        | inl (held, _) ↦ absurd (
            hold_back-enter definition snapshot evaluation side order_type quantity brackets reason
              held i)
        | inr (none_held, rules) ↦
            let (l, s, x, _, _, _, e) = evaluate_rules-decided next evaluation rules in
            decided-enter l s x next evaluation side order_type quantity brackets reason none_held e
              i
      ]
