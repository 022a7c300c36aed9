-- ===== src/RuleEngine/Plans.antt =====
-- A signal plan of crates/rule_engine evaluates once all of its conditions do.
use tv_bot_core.Base.{
  if-Returns, Option, none, some, List, [], ◌∷◌, All, Returns, >>=-Returns, try_map, ◌⊎◌, inl, inr,
  refl,
}
use tv_bot_core.External.{Externals}
use tv_bot_core.CoreTypes.{SignalCombinationMode}
use tv_bot_core.RuleEngine.Conditions.{
  EvaluationSide, CompiledCondition, RuleEvaluationContext, ConditionEvaluation, SignalPlan,
}
use tv_bot_core.RuleEngine.Dispatch.{evaluate_condition}
use tv_bot_core.RuleEngine.SignalPlan.{
  filter_evaluation, sequence_evaluations, combine, after_sequence, after_filter,
  evaluate_signal_plan,
}

module _ {X : Externals} (side : EvaluationSide) (context : RuleEvaluationContext X) where
  -- The conditions evaluate without an error.
  abbrev pub Evaluate : List (CompiledCondition X) → Type 0
  Evaluate conditions =
      All (λ condition. Returns (evaluate_condition condition side context)) conditions

  abbrev pub FilterEvaluates : Option (CompiledCondition X) → Type 0
  FilterEvaluates none = Unit
  FilterEvaluates (some filter) = Returns (evaluate_condition filter side context)

  try_map-Returns :
      (conditions : List (CompiledCondition X))
      → Evaluate conditions
      → Returns (try_map (λ condition. evaluate_condition condition side context) conditions)
  try_map-Returns [] h = (_, refl)
  try_map-Returns (condition ∷ conditions) h =
      >>=-Returns (evaluate_condition condition side context) _ h.0 λ e.
        >>=-Returns (try_map (λ condition. evaluate_condition condition side context) conditions) _
          (try_map-Returns conditions h.1) λ later. (_, refl)

  sequence-Returns :
      (conditions : List (CompiledCondition X))
      → Evaluate conditions
      → Returns (sequence_evaluations conditions side context)
  unfolding sequence_evaluations
  sequence-Returns [] h = (_, refl)
  sequence-Returns (condition ∷ conditions) h =
      >>=-Returns (evaluate_condition condition side context) _ h.0 λ e.
        if-Returns e.passed _ _
          (>>=-Returns (sequence_evaluations conditions side context) _
            (sequence-Returns conditions h.1) λ later. (_, refl))
          (_, refl)

  combine-Returns :
      (mode : SignalCombinationMode) (plan : SignalPlan X) (primary : List (ConditionEvaluation X))
      → Evaluate plan.secondary
      → Returns (combine mode plan primary side context)
  combine-Returns SignalCombinationMode.all plan primary h = (_, refl)
  combine-Returns SignalCombinationMode.any plan primary h = (_, refl)
  combine-Returns SignalCombinationMode.n_of_m plan primary h = (_, refl)
  combine-Returns SignalCombinationMode.weighted_score plan primary h =
      >>=-Returns (try_map (λ condition. evaluate_condition condition side context) plan.secondary)
        _ (try_map-Returns plan.secondary h) λ _. (_, refl)

  after_sequence-Returns :
      (plan : SignalPlan X) (outcome : ConditionEvaluation X ⊎ List (ConditionEvaluation X))
      → Evaluate plan.primary
      → Evaluate plan.secondary
      → Returns (after_sequence plan side context outcome)
  after_sequence-Returns plan (inl evaluation) p q = (_, refl)
  after_sequence-Returns plan (inr sequence) p q =
      >>=-Returns (try_map (λ condition. evaluate_condition condition side context) plan.primary) _
        (try_map-Returns plan.primary p)
        λ primary.
          >>=-Returns (combine plan.mode plan primary side context) _
            (combine-Returns plan.mode plan primary q) λ _. (_, refl)

  after_filter-Returns :
      (plan : SignalPlan X) (outcome : Option (ConditionEvaluation X))
      → Evaluate plan.primary
      → Evaluate plan.secondary
      → Evaluate plan.sequence
      → Returns (after_filter plan side context outcome)
  after_filter-Returns plan (some evaluation) p q s = (_, refl)
  after_filter-Returns plan none p q s =
      >>=-Returns (sequence_evaluations plan.sequence side context) _
        (sequence-Returns plan.sequence s) λ outcome. after_sequence-Returns plan outcome p q

  filter-Returns :
      (filter : Option (CompiledCondition X))
      → FilterEvaluates filter
      → Returns (filter_evaluation filter side context)
  filter-Returns none h = (_, refl)
  filter-Returns (some filter) h =
      >>=-Returns (evaluate_condition filter side context) _ h λ _. (_, refl)

  pub evaluate_signal_plan-Returns :
      (plan : SignalPlan X)
      → Evaluate plan.primary
      → Evaluate plan.secondary
      → Evaluate plan.sequence
      → FilterEvaluates plan.regime_filter
      → Returns (evaluate_signal_plan plan side context)
  unfolding evaluate_signal_plan
  evaluate_signal_plan-Returns plan p q s f =
      >>=-Returns (filter_evaluation plan.regime_filter side context) _
        (filter-Returns plan.regime_filter f) λ outcome. after_filter-Returns plan outcome p q s
