-- ===== src/RuleEngine/SignalPlan.antt =====
-- crates/rule_engine/src/eval.rs: the evaluation of a signal plan.
use tv_bot_core.Base.{
  ◌+◌, ℕ, ltb, leb, Bool, false, Option, none, some, List, [], ◌∷◌, ◌++◌, String, Result, ok, ◌>>=◌,
  ◌&&◌, length, keep, if◌then◌else◌, ◌==◌, try_map, unwrap_or, ◌⊎◌, inl, inr,
}
use tv_bot_core.External.{Externals}
use tv_bot_core.CoreTypes.{SignalCombinationMode}
use tv_bot_core.RuleEngine.Conditions.{
  EvaluationSide, RuleEngineError, CompiledCondition, RuleEvaluationContext, ConditionEvaluation,
  RuleSetEvaluation, SignalPlan,
}
use tv_bot_core.RuleEngine.Dispatch.{evaluate_condition}

module _ (X : Externals) where
  open X use {Decimal, decimal_zero, decimal_of_unsigned, decimal_div}

  unfoldable pub score_ratio : ℕ → ℕ → Decimal
  score_ratio matched total =
      if total == 0
      then decimal_zero
      else decimal_div (decimal_of_unsigned matched) (decimal_of_unsigned total)

module _ {X : Externals} where
  open X use {Decimal, decimal_zero, decimal_one, decimal_le}

  -- `.iter().filter(|item| item.passed).count()`
  abbrev pub count_passed : List (ConditionEvaluation X) → ℕ
  count_passed items = length (keep (λ item. item.passed) items)

  -- The early returns of `evaluate_signal_plan`.
  abbrev pub blocked : SignalPlan X → ConditionEvaluation X → String → RuleSetEvaluation X
  blocked plan evaluation reason = record {
    matched = false;
    matched_conditions = 0;
    total_conditions = length plan.primary;
    score = decimal_zero;
    details = evaluation ∷ [];
    blocking_reason = some reason;
  }

  abbrev pub filter_evaluation :
      Option (CompiledCondition X)
      → EvaluationSide
      → RuleEvaluationContext X
      → Result RuleEngineError (Option (ConditionEvaluation X))
  filter_evaluation none side context = ok none
  filter_evaluation (some filter) side context = do
    evaluation ← evaluate_condition filter side context
    ok (if evaluation.passed then none else some evaluation)

  -- The loop over `plan.sequence`: the first condition that fails, or the evaluations of all.
  unfoldable pub sequence_evaluations :
      List (CompiledCondition X)
      → EvaluationSide
      → RuleEvaluationContext X
      → Result RuleEngineError (ConditionEvaluation X ⊎ List (ConditionEvaluation X))
  sequence_evaluations [] side context = ok (inr [])
  sequence_evaluations (condition ∷ conditions) side context =
      evaluate_condition condition side context >>= λ evaluation.
      let rest = sequence_evaluations conditions side context in
      if evaluation.passed
      then (rest >>= λ outcome. ok (after evaluation outcome))
      else ok (inl evaluation)
    where
      after :
          ConditionEvaluation X
          → ConditionEvaluation X ⊎ List (ConditionEvaluation X)
          → ConditionEvaluation X ⊎ List (ConditionEvaluation X)
      after evaluation (inl failed) = inl failed
      after evaluation (inr details) = inr (evaluation ∷ details)

  -- The arms on `plan.mode`: whether the plan matches, its score and the details they add.
  abbrev pub combine :
      SignalCombinationMode
      → SignalPlan X
      → List (ConditionEvaluation X)
      → EvaluationSide
      → RuleEvaluationContext X
      → Result RuleEngineError (Bool × Decimal × List (ConditionEvaluation X))
  combine SignalCombinationMode.all plan primary side context = ok (
    ltb 0 (length primary) && count_passed primary == length primary,
    score_ratio X (count_passed primary) (length primary),
    [],
  )
  combine SignalCombinationMode.any plan primary side context =
      ok (ltb 0 (count_passed primary), score_ratio X (count_passed primary) (length primary), [])
  combine SignalCombinationMode.n_of_m plan primary side context =
      let required = unwrap_or plan.n_required 0 in
      ok (
        ltb 0 required && leb required (count_passed primary),
        score_ratio X (count_passed primary) (length primary),
        [],
      )
  combine SignalCombinationMode.weighted_score plan primary side context = do
    secondary ← try_map (λ condition. evaluate_condition condition side context) plan.secondary
    let total = length primary + length secondary
    let score = score_ratio X (count_passed (primary ++ secondary)) total
    ok (
      ltb 0 total && decimal_le (unwrap_or plan.score_threshold decimal_one) score,
      score,
      secondary,
    )

  abbrev pub evaluate_primary :
      SignalPlan X
      → EvaluationSide
      → RuleEvaluationContext X
      → List (ConditionEvaluation X)
      → Result RuleEngineError (RuleSetEvaluation X)
  evaluate_primary plan side context sequence = do
    primary ← try_map (λ condition. evaluate_condition condition side context) plan.primary
    (matched, score, secondary) ← combine plan.mode plan primary side context
    ok record {
      matched = matched;
      matched_conditions = count_passed primary;
      total_conditions = length primary;
      score = score;
      details = sequence ++ primary ++ secondary;
      blocking_reason = none;
    }

  abbrev pub after_sequence :
      SignalPlan X
      → EvaluationSide
      → RuleEvaluationContext X
      → ConditionEvaluation X ⊎ List (ConditionEvaluation X)
      → Result RuleEngineError (RuleSetEvaluation X)
  after_sequence plan side context (inl evaluation) =
      ok (blocked plan evaluation "sequence requirements are not satisfied")
  after_sequence plan side context (inr sequence) = evaluate_primary plan side context sequence

  abbrev pub after_filter :
      SignalPlan X
      → EvaluationSide
      → RuleEvaluationContext X
      → Option (ConditionEvaluation X)
      → Result RuleEngineError (RuleSetEvaluation X)
  after_filter plan side context (some evaluation) =
      ok (blocked plan evaluation "regime filter failed")
  after_filter plan side context none =
      sequence_evaluations plan.sequence side context >>= after_sequence plan side context

  unfoldable pub evaluate_signal_plan :
      SignalPlan X
      → EvaluationSide
      → RuleEvaluationContext X
      → Result RuleEngineError (RuleSetEvaluation X)
  evaluate_signal_plan plan side context =
      filter_evaluation plan.regime_filter side context >>= after_filter plan side context
