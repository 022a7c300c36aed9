-- ===== src/StrategyRuntime/Signals.antt =====
-- crates/strategy_runtime/src/lib.rs: the signal of each side, and the direction chosen of the two.
use tv_bot_core.Base.{
  Bool, true, false, Option, none, some, List, [], ◌∷◌, ◌++◌, map, String, Result, ok, ◌>>=◌, ◌&&◌,
  is_empty, format, if◌then◌else◌,
}
use tv_bot_core.External.{Externals, decimal_lt}
use tv_bot_core.CoreTypes.{SignalCombinationMode, SignalDirection, CompiledStrategy}
use tv_bot_core.RuleEngine.Conditions.{
  EvaluationSide, label, CompiledCondition, RuleEvaluationContext, ConditionEvaluation,
  RuleSetEvaluation, SignalPlan,
}
use tv_bot_core.RuleEngine.SignalPlan.{evaluate_signal_plan}
use tv_bot_core.StrategyRuntime.Definition.{
  RuntimeStrategyDefinition, RuntimeEntryConditions, SideSignalEvaluation, StrategyRuntimeError,
  as_rule_plan,
}
use tv_bot_core.StrategyRuntime.Compile.{from_rule_engine}

abbrev reason_line : Option String → List String
reason_line none = []
reason_line (some reason) = reason ∷ []

abbrev or_no_setup : List String → List String
or_no_setup rationale = if is_empty rationale then "no setup matched" ∷ [] else rationale

module _ (X : Externals) where
  open X use {Decimal, decimal_zero, decimal_one}

  unfoldable pub empty_rule_set : RuleSetEvaluation X
  empty_rule_set = record {
    matched = true;
    matched_conditions = 0;
    total_conditions = 0;
    score = decimal_one;
    details = [];
    blocking_reason = none;
  }

  abbrev pub plan_of_all : List (CompiledCondition X) → SignalPlan X
  plan_of_all conditions = record {
    mode = SignalCombinationMode.all;
    primary = conditions;
    secondary = [];
    n_required = none;
    score_threshold = none;
    regime_filter = none;
    sequence = [];
  }

module _ {X : Externals} where
  open X use {Decimal, decimal_zero}

  unfoldable pub evaluate_all_conditions :
      List (CompiledCondition X)
      → EvaluationSide
      → RuleEvaluationContext X
      → Result StrategyRuntimeError (RuleSetEvaluation X)
  unfolding empty_rule_set
  evaluate_all_conditions conditions side context =
      if is_empty conditions
      then ok (empty_rule_set X)
      else from_rule_engine (evaluate_signal_plan (plan_of_all X conditions) side context)

  abbrev summary : ConditionEvaluation X → String
  summary detail = format (
      detail.raw
      ∷ " "
      ∷ (if detail.passed then "passed" else "failed")
      ∷ " ("
      ∷ detail.rationale
      ∷ ")"
      ∷ [])

  abbrev pub summarize_rule_set : RuleSetEvaluation X → List String
  summarize_rule_set evaluation =
      map summary evaluation.details ++ reason_line evaluation.blocking_reason

  abbrev pub side_enabled : CompiledStrategy X → EvaluationSide → Bool
  side_enabled strategy EvaluationSide.long = strategy.entry_rules.long_enabled
  side_enabled strategy EvaluationSide.short = strategy.entry_rules.short_enabled

  abbrev pub entry_conditions_of :
      RuntimeEntryConditions X → EvaluationSide → List (CompiledCondition X)
  entry_conditions_of conditions EvaluationSide.long = conditions.long
  entry_conditions_of conditions EvaluationSide.short = conditions.short

  -- The rest of `evaluate_side_signal` for a signal plan that is evaluated.
  abbrev pub after_plan :
      RuntimeStrategyDefinition X
      → EvaluationSide
      → RuleEvaluationContext X
      → RuleSetEvaluation X
      → Result StrategyRuntimeError (SideSignalEvaluation X)
  after_plan definition side context signal_evaluation =
      if signal_evaluation.matched
      then (evaluate_all_conditions (entry_conditions_of definition.entry_conditions side) side
            context
          >>= λ side_evaluation. ok (record {
            active = signal_evaluation.matched && side_evaluation.matched;
            score = signal_evaluation.score;
            rationale = summarize_rule_set signal_evaluation ++ summarize_rule_set side_evaluation;
          }))
      else ok (record {
        active = false;
        score = signal_evaluation.score;
        rationale = summarize_rule_set signal_evaluation;
      })

  unfoldable pub evaluate_side_signal :
      RuntimeStrategyDefinition X
      → EvaluationSide
      → RuleEvaluationContext X
      → Result StrategyRuntimeError (SideSignalEvaluation X)
  unfolding evaluate_all_conditions
  evaluate_side_signal definition side context =
      if side_enabled definition.strategy side
      then (from_rule_engine (
            evaluate_signal_plan (as_rule_plan definition.signal_plan definition.strategy) side
              context)
          >>= after_plan definition side context)
      else ok (record {
        active = false;
        score = decimal_zero;
        rationale = format (label side ∷ " side is disabled" ∷ []) ∷ [];
      })

  abbrev both_active :
      SideSignalEvaluation X
      → SideSignalEvaluation X
      → SignalDirection × Option Decimal × List String
  both_active long_signal short_signal =
      if decimal_lt X short_signal.score long_signal.score
      then (
        SignalDirection.long,
        some long_signal.score,
        long_signal.rationale ++ "short setup also matched, but long score was higher" ∷ [],
      )
      else if decimal_lt X long_signal.score short_signal.score
      then (
        SignalDirection.short,
        some short_signal.score,
        short_signal.rationale ++ "long setup also matched, but short score was higher" ∷ [],
      )
      else (SignalDirection.flat, none, "long and short setups matched with identical score" ∷ [])

  unfoldable pub choose_signal_direction :
      SideSignalEvaluation X
      → SideSignalEvaluation X
      → SignalDirection × Option Decimal × List String
  choose_signal_direction long_signal short_signal =
      if long_signal.active
      then (if short_signal.active
          then both_active long_signal short_signal
          else (SignalDirection.long, some long_signal.score, long_signal.rationale))
      else if short_signal.active
      then (SignalDirection.short, some short_signal.score, short_signal.rationale)
      else (
        SignalDirection.flat,
        none,
        or_no_setup (long_signal.rationale ++ short_signal.rationale),
      )
