-- ===== src/StrategyRuntime/Exits.antt =====
-- When `evaluate` of crates/strategy_runtime/src/lib.rs closes a position.
use tv_bot_core.Base.{
  Bool, true, false, Option, none, some, List, [], ◌≡◌, ◌⊎◌, String, ok, not, is_some, refl, arith,
  inl, inr, ◌∙◌, sym, ap, ok_injective,
}
use tv_bot_core.External.{Externals}
use tv_bot_core.CoreTypes.{SignalDirection, ExecutionIntent, BrokerPositionSnapshot, is_ready}
use tv_bot_core.RuleEngine.Conditions.{EvaluationSide, RuleSetEvaluation}
use tv_bot_core.StrategyRuntime.Definition.{
  StrategyRuntimeState, RuntimeStrategyDefinition, StrategyMarketSnapshot, StrategyEvaluation,
  SideSignalEvaluation,
}
use tv_bot_core.StrategyRuntime.Session.{session_state}
use tv_bot_core.StrategyRuntime.Signals.{empty_rule_set, evaluate_all_conditions}
use tv_bot_core.StrategyRuntime.Intents.{is_synchronized, exit_edge, position_side, entry_intent}
use tv_bot_core.StrategyRuntime.Engine.{
  hold_back, decide, decided, context_of, evaluate_exit, evaluate,
}
use tv_bot_core.StrategyRuntime.Entries.{evaluate-cases, evaluate_rules-decided, hold_back-none}

abbrev closes : Option ExecutionIntent → Bool
closes (some (ExecutionIntent.exit reason)) = true
closes (some (ExecutionIntent.flatten reason)) = true
closes _ = false

module _ {X : Externals} (definition : RuntimeStrategyDefinition X) where
  decide-closes :
      (state : StrategyRuntimeState) (position : Option EvaluationSide)
      (direction : SignalDirection) (exit_matched entries_allowed flatten_due : Bool)
      (rationale : List String)
      → closes
          (decide definition state position direction exit_matched entries_allowed flatten_due
            rationale).0
        ≡ true
      → (flatten_due ≡ true) ⊎ (is_some position ≡ true)
  unfolding decide entry_intent
  decide-closes state none SignalDirection.long exit_matched entries_allowed flatten_due rationale
        h =
      ground arith
  decide-closes state none SignalDirection.short exit_matched entries_allowed flatten_due rationale
        h =
      ground arith
  decide-closes state none SignalDirection.flat exit_matched entries_allowed flatten_due rationale
        h =
      ground arith
  decide-closes state (some held) direction exit_matched entries_allowed flatten_due rationale h =
      inr refl

  hold_back-closes :
      (snapshot : StrategyMarketSnapshot X) (evaluation : StrategyEvaluation X)
      → hold_back definition snapshot ≡ some evaluation
      → closes evaluation.intent ≡ false
  unfolding hold_back
  hold_back-closes snapshot evaluation h = ground arith

position_side-some :
    {X : Externals} (position : Option (BrokerPositionSnapshot X))
    → is_some (position_side position) ≡ true
    → is_some position ≡ true
unfolding position_side
position_side-some none h = h
position_side-some (some position) h = refl

module _ {X : Externals} (definition : RuntimeStrategyDefinition X) (state : StrategyRuntimeState)
    (snapshot : StrategyMarketSnapshot X) where
  -- A session flattens only a position.
  flatten_due-position :
      (sync_degraded : Bool)
      → (session_state definition snapshot sync_degraded).2 ≡ true
      → is_some snapshot.position ≡ true
  unfolding session_state
  flatten_due-position sync_degraded h = ground arith

  decided-closes :
      (long_signal short_signal : SideSignalEvaluation X) (exit : RuleSetEvaluation X)
      → closes (decided definition state snapshot long_signal short_signal exit).1.intent ≡ true
      → is_some snapshot.position ≡ true
  decided-closes long_signal short_signal exit h =
      elim (decide-closes definition state (position_side snapshot.position) _ _ _ _ _ h) [
        | inl due ↦ flatten_due-position _ due
        | inr held ↦ position_side-some snapshot.position held
      ]

  -- When an evaluation asks to exit or to flatten, there is a position, the warmup is ready, and
  -- neither the market data is degraded nor the broker out of sync: a position is left to the broker
  -- while its data or its sync is in doubt.
  pub evaluate-closes :
      (next : StrategyRuntimeState) (evaluation : StrategyEvaluation X)
      → evaluate definition state snapshot ≡ ok (next, evaluation)
      → closes evaluation.intent ≡ true
      → (is_some snapshot.position ≡ true)
        × (is_ready snapshot.warmup_status ≡ true)
        × (snapshot.market_data_degraded ≡ false)
        × (is_synchronized snapshot.broker_sync_state ≡ true)
  evaluate-closes next evaluation h c =
      elim (evaluate-cases definition state next snapshot evaluation h) [
        | inl (held, _) ↦ ground (arith, hold_back-closes definition snapshot evaluation held)
        | inr (none_held, rules) ↦
            let (l, s, x, _, _, _, e) =
              evaluate_rules-decided definition state snapshot next evaluation rules in
            let position = decided-closes l s x (ap (λ d. closes d.1.intent) e ∙ c) in
            let (ready, buffers, healthy) = hold_back-none definition snapshot none_held in
            ground arith
      ]

  no_conditions-matched :
      (side : EvaluationSide) (exit : RuleSetEvaluation X)
      → definition.exit_conditions ≡ []
      → position_side snapshot.position ≡ some side
      → evaluate_exit definition (position_side snapshot.position) (context_of snapshot) ≡ ok exit
      → exit.matched ≡ true
  unfolding evaluate_all_conditions empty_rule_set
  no_conditions-matched side exit n p h =
      let e : ok exit ≡ ok (empty_rule_set X) =
        sym h
        ∙ ap (λ o. evaluate_exit definition o (context_of snapshot)) p
        ∙ ap (λ conditions. evaluate_all_conditions conditions side (context_of snapshot)) n in
      ap (λ r. r.matched) (ok_injective refl e)

  decide-exit :
      (side : EvaluationSide) (direction : SignalDirection) (entries_allowed : Bool)
      (rationale : List String)
      → exit_edge state side ≡ true
      → (decide definition state (some side) direction true entries_allowed false rationale).0
        ≡ some (ExecutionIntent.exit "explicit exit conditions matched")
  unfolding decide
  decide-exit side direction entries_allowed rationale h = ground arith

  -- A strategy without exit conditions exits a position of either side as soon as the rules run and
  -- its session does not flatten it, unless it did so before on that side: no condition counts as
  -- all conditions matched.
  pub no_exit_conditions-exit :
      (side : EvaluationSide) (next : StrategyRuntimeState) (evaluation : StrategyEvaluation X)
      → definition.exit_conditions ≡ []
      → position_side snapshot.position ≡ some side
      → exit_edge state side ≡ true
      → hold_back definition snapshot ≡ none
      → (session_state definition snapshot (not (is_synchronized snapshot.broker_sync_state))).2
        ≡ false
      → evaluate definition state snapshot ≡ ok (next, evaluation)
      → evaluation.intent ≡ some (ExecutionIntent.exit "explicit exit conditions matched")
  no_exit_conditions-exit side next evaluation n p edge none_held due h =
      elim (evaluate-cases definition state next snapshot evaluation h) [
        | inl (held, _) ↦ cc
        | inr (_, rules) ↦
            let (l, s, x, _, _, k, e) =
              evaluate_rules-decided definition state snapshot next evaluation rules in
            let m = no_conditions-matched side x n p k in
            sym (ap (λ d. d.1.intent) e) ∙ rw (p, m, due) (decide-exit side _ _ _ edge)
      ]
