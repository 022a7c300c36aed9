-- ===== src/StrategyRuntime/Ready.antt =====
-- `evaluate` of crates/strategy_runtime/src/lib.rs returns for a strategy that compiles.
use tv_bot_core.Base.{
  Option, none, some, List, ◌≡◌, Result, ok, err, All, All-split, Returns, >>=-Returns, if-Returns,
  refl, is_empty,
}
use tv_bot_core.External.{Externals}
use tv_bot_core.RuleEngine.Conditions.{
  EvaluationSide, RuleEngineError, CompiledCondition, RuleEvaluationContext,
}
use tv_bot_core.RuleEngine.SignalPlan.{evaluate_signal_plan}
use tv_bot_core.RuleEngine.Plans.{FilterEvaluates, Evaluate, evaluate_signal_plan-Returns}
use tv_bot_core.StrategyRuntime.Definition.{
  RuntimeSignalPlan, StrategyRuntimeState, RuntimeStrategyDefinition, RuntimeEntryConditions,
  StrategyMarketSnapshot, StrategyEvaluation, as_rule_plan,
}
use tv_bot_core.StrategyRuntime.Compile.{one_or_none, from_rule_engine, all_conditions}
use tv_bot_core.StrategyRuntime.Signals.{
  evaluate_all_conditions, evaluate_side_signal, side_enabled, entry_conditions_of, plan_of_all,
}
use tv_bot_core.StrategyRuntime.Intents.{position_side}
use tv_bot_core.StrategyRuntime.Engine.{
  context_of, evaluate_exit, evaluate_rules, after_hold, hold_back, evaluate,
}

from_rule_engine-Returns :
    {A : Type 0} (r : Result RuleEngineError A) → Returns r → Returns (from_rule_engine r)
from_rule_engine-Returns (ok a) h = (a, refl)
from_rule_engine-Returns (err e) h = cc

split_conditions :
    {X : Externals} (P : CompiledCondition X → Type 0) (plan : RuntimeSignalPlan X)
    (entry : RuntimeEntryConditions X) (exit : List (CompiledCondition X))
    → All P (all_conditions plan entry exit)
    → All P plan.primary
      × All P plan.secondary
      × All P (one_or_none plan.regime_filter)
      × All P plan.sequence
      × All P entry.long
      × All P entry.short
      × All P exit
split_conditions P plan entry exit h =
    let (to_short, last) = All-split P _ exit h in
    let (to_long, short) = All-split P _ entry.short to_short in
    let (to_sequence, long) = All-split P _ entry.long to_long in
    let (to_filter, sequence) = All-split P _ plan.sequence to_sequence in
    let (to_secondary, filter) = All-split P _ (one_or_none plan.regime_filter) to_filter in
    let (primary, secondary) = All-split P _ plan.secondary to_secondary in
    (primary, secondary, filter, sequence, long, short, last)

filter-Evaluates :
    {X : Externals} (side : EvaluationSide) (context : RuleEvaluationContext X)
    (filter : Option (CompiledCondition X))
    → Evaluate side context (one_or_none filter)
    → FilterEvaluates side context filter
filter-Evaluates side context none h = tt
filter-Evaluates side context (some filter) h = h.0

module _ {X : Externals} (definition : RuntimeStrategyDefinition X)
    (context : RuleEvaluationContext X) where
  -- All conditions of the strategy evaluate on both sides.
  abbrev ConditionsEvaluate : Type 0
  ConditionsEvaluate =
      (side : EvaluationSide)
      → Evaluate side context (
          all_conditions definition.signal_plan definition.entry_conditions
            definition.exit_conditions)

  all-Returns :
      (conditions : List (CompiledCondition X)) (side : EvaluationSide)
      → Evaluate side context conditions
      → Returns (evaluate_all_conditions conditions side context)
  unfolding evaluate_all_conditions
  all-Returns conditions side h =
      if-Returns (is_empty conditions) _ _ (_, refl)
        (from_rule_engine-Returns _
          (evaluate_signal_plan-Returns side context (plan_of_all X conditions) h tt tt tt))

  side_plan-Returns :
      (side : EvaluationSide)
      → ConditionsEvaluate
      → Returns (
          evaluate_signal_plan
            (as_rule_plan definition.signal_plan definition.strategy)
            side
            context)
  side_plan-Returns side h =
      let (primary, secondary, filter, sequence, _, _, _) =
        split_conditions _ definition.signal_plan definition.entry_conditions
          definition.exit_conditions (h side) in
      evaluate_signal_plan-Returns side context _ primary secondary sequence
        (filter-Evaluates side context definition.signal_plan.regime_filter filter)

  side_entry-Returns :
      (side : EvaluationSide)
      → ConditionsEvaluate
      → Returns (
          evaluate_all_conditions
            (entry_conditions_of definition.entry_conditions side)
            side
            context)
  side_entry-Returns EvaluationSide.long h =
      all-Returns definition.entry_conditions.long EvaluationSide.long
        (split_conditions _ definition.signal_plan definition.entry_conditions
          definition.exit_conditions (h EvaluationSide.long)).4
  side_entry-Returns EvaluationSide.short h =
      all-Returns definition.entry_conditions.short EvaluationSide.short
        (split_conditions _ definition.signal_plan definition.entry_conditions
          definition.exit_conditions (h EvaluationSide.short)).5

  side_signal-Returns :
      (side : EvaluationSide)
      → ConditionsEvaluate
      → Returns (evaluate_side_signal definition side context)
  unfolding evaluate_side_signal
  side_signal-Returns side h =
      if-Returns (side_enabled definition.strategy side) _ _
        (>>=-Returns
          (from_rule_engine (
            evaluate_signal_plan (as_rule_plan definition.signal_plan definition.strategy) side
              context))
          _ (from_rule_engine-Returns _ (side_plan-Returns side h))
          λ plan.
            if-Returns plan.matched _ _
              (>>=-Returns
                (evaluate_all_conditions (entry_conditions_of definition.entry_conditions side) side
                  context)
                _ (side_entry-Returns side h) λ _. (_, refl))
              (_, refl))
        (_, refl)

  exit-Returns :
      (side : Option EvaluationSide)
      → ConditionsEvaluate
      → Returns (evaluate_exit definition side context)
  exit-Returns none h = (_, refl)
  exit-Returns (some side) h =
      all-Returns definition.exit_conditions side
        (split_conditions _ definition.signal_plan definition.entry_conditions
          definition.exit_conditions (h side)).6

module _ {X : Externals} (definition : RuntimeStrategyDefinition X) (state : StrategyRuntimeState)
    (snapshot : StrategyMarketSnapshot X) where
  rules-Returns :
      ConditionsEvaluate definition (context_of snapshot)
      → Returns (evaluate_rules definition state snapshot)
  rules-Returns h =
      >>=-Returns (evaluate_side_signal definition EvaluationSide.long (context_of snapshot)) _
        (side_signal-Returns definition (context_of snapshot) EvaluationSide.long h)
        λ _.
          >>=-Returns (evaluate_side_signal definition EvaluationSide.short (context_of snapshot)) _
            (side_signal-Returns definition (context_of snapshot) EvaluationSide.short h)
            λ _.
              >>=-Returns
                (evaluate_exit definition (position_side snapshot.position) (context_of snapshot)) _
                (exit-Returns definition (context_of snapshot) (position_side snapshot.position) h)
                λ _. (_, refl)

  after_hold-Returns :
      (held : Option (StrategyEvaluation X))
      → (held ≡ none → ConditionsEvaluate definition (context_of snapshot))
      → Returns (after_hold definition state snapshot held)
  after_hold-Returns (some evaluation) h = (_, refl)
  after_hold-Returns none h = rules-Returns (h refl)

  pub evaluate-Returns :
      (hold_back definition snapshot ≡ none → ConditionsEvaluate definition (context_of snapshot))
      → Returns (evaluate definition state snapshot)
  unfolding evaluate
  evaluate-Returns h = after_hold-Returns (hold_back definition snapshot) h
