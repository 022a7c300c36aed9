-- ===== src/RuleEngine/Signals.antt =====
-- What `evaluate_signal_plan` of crates/rule_engine/src/eval.rs decides, against a direct reading.
use tv_bot_core.Base.{
  length-append, length-keep_append, any-keep, not-is_empty, length-keep, is_some, ℕ, ◌+◌, ltb, leb,
  ◌==◌, ◌≡◌, ◌∙◌, sym, refl, Bool, false, true, Option, none, some, List, [], ◌∷◌, ◌++◌, Result, ok,
  err, >>=-eq-ok, not, ◌&&◌, length, keep, any, is_empty, try_map, unwrap_or, ◌⊎◌, inl, inr,
  Bool-cases, Result-cases, arith,
}
use tv_bot_core.External.{Externals}
use tv_bot_core.CoreTypes.{SignalCombinationMode}
use tv_bot_core.RuleEngine.Conditions.{
  EvaluationSide, RuleEngineError, CompiledCondition, RuleEvaluationContext, ConditionEvaluation,
  RuleSetEvaluation, SignalPlan,
}
use tv_bot_core.RuleEngine.Dispatch.{evaluate_condition}
use tv_bot_core.RuleEngine.SignalPlan.{
  score_ratio, count_passed, filter_evaluation, sequence_evaluations, combine, evaluate_primary,
  after_sequence, after_filter, evaluate_signal_plan,
}

module _ {X : Externals} where
  abbrev has_passed : Result RuleEngineError (ConditionEvaluation X) → Bool
  has_passed (ok evaluation) = evaluation.passed
  has_passed (err e) = false

  -- A condition that evaluates to a pass.
  abbrev passes : EvaluationSide → RuleEvaluationContext X → CompiledCondition X → Bool
  passes side context condition = has_passed (evaluate_condition condition side context)

  abbrev all_pass : EvaluationSide → RuleEvaluationContext X → List (CompiledCondition X) → Bool
  all_pass side context [] = true
  all_pass side context (condition ∷ conditions) =
      passes side context condition && all_pass side context conditions

  abbrev filter_passes :
      EvaluationSide → RuleEvaluationContext X → Option (CompiledCondition X) → Bool
  filter_passes side context none = true
  filter_passes side context (some filter) = passes side context filter

  abbrev passing : EvaluationSide → RuleEvaluationContext X → List (CompiledCondition X) → ℕ
  passing side context conditions = length (keep (passes side context) conditions)

  -- The conditions that each mode asks for.
  abbrev meets :
      SignalCombinationMode → SignalPlan X → EvaluationSide → RuleEvaluationContext X → Bool
  meets SignalCombinationMode.all plan side context =
      not (is_empty plan.primary) && all_pass side context plan.primary
  meets SignalCombinationMode.any plan side context = any (passes side context) plan.primary
  meets SignalCombinationMode.n_of_m plan side context =
      ltb 0 (unwrap_or plan.n_required 0)
      && leb (unwrap_or plan.n_required 0) (passing side context plan.primary)
  meets SignalCombinationMode.weighted_score plan side context =
      let conditions = plan.primary ++ plan.secondary in
      ltb 0 (length conditions)
      && X.decimal_le (unwrap_or plan.score_threshold X.decimal_one)
          (score_ratio X (passing side context conditions) (length conditions))

  abbrev pub admits : SignalPlan X → EvaluationSide → RuleEvaluationContext X → Bool
  admits plan side context =
      filter_passes side context plan.regime_filter
      && all_pass side context plan.sequence
      && meets plan.mode plan side context

abbrev is_inr : {A B : Type 0} → A ⊎ B → Bool
is_inr (inl a) = false
is_inr (inr b) = true

module _ {X : Externals} (side : EvaluationSide) (context : RuleEvaluationContext X) where
  filter_evaluation-passes :
      (filter : Option (CompiledCondition X)) (outcome : Option (ConditionEvaluation X))
      → filter_evaluation filter side context ≡ ok outcome
      → filter_passes side context filter ≡ not (is_some outcome)
  filter_evaluation-passes none outcome h = ground arith
  filter_evaluation-passes (some filter) outcome h =
      elim (Result-cases (evaluate_condition filter side context)) [
        | inl (e, k) ↦ ground arith
        | inr (e, k) ↦ ground arith
      ]

  sequence_evaluations-passes :
      (conditions : List (CompiledCondition X))
      (outcome : ConditionEvaluation X ⊎ List (ConditionEvaluation X))
      → sequence_evaluations conditions side context ≡ ok outcome
      → all_pass side context conditions ≡ is_inr outcome
  unfolding sequence_evaluations
  sequence_evaluations-passes [] outcome h = ground arith
  sequence_evaluations-passes (condition ∷ conditions) outcome h =
      let (e, k, h1) = >>=-eq-ok (evaluate_condition condition side context) _ h in
      elim (Result-cases (sequence_evaluations conditions side context)) [
        | inl (inl failed, q) ↦
            ground (arith, sequence_evaluations-passes conditions (inl failed) q)
        | inl (inr details, q) ↦
            ground (arith, sequence_evaluations-passes conditions (inr details) q)
        | inr (e2, q) ↦ ground arith
      ]

  try_map-passing :
      (conditions : List (CompiledCondition X)) (items : List (ConditionEvaluation X))
      → try_map (λ condition. evaluate_condition condition side context) conditions ≡ ok items
      → (count_passed items ≡ passing side context conditions) × (length items ≡ length conditions)
  try_map-passing [] items h = ground arith
  try_map-passing (condition ∷ conditions) items h =
      let (e, k, h1) = >>=-eq-ok (evaluate_condition condition side context) _ h in
      let (later, k1, h2) =
        >>=-eq-ok (try_map (λ condition. evaluate_condition condition side context) conditions) _
          h1 in
      let (counts, lengths) = try_map-passing conditions later k1 in ground arith

all_pass-passing :
    {X : Externals} (side : EvaluationSide) (context : RuleEvaluationContext X)
    (conditions : List (CompiledCondition X))
    → (passing side context conditions == length conditions) ≡ all_pass side context conditions
all_pass-passing side context [] = refl
all_pass-passing side context (condition ∷ conditions) =
    elim (Bool-cases (passes side context condition)) [
      | inl h ↦ ground (arith, all_pass-passing side context conditions)
      | inr h ↦ ground (arith, length-keep (passes side context) conditions)
    ]

module _ {X : Externals} (side : EvaluationSide) (context : RuleEvaluationContext X) where
  combine-meets :
      (mode : SignalCombinationMode) (plan : SignalPlan X) (primary : List (ConditionEvaluation X))
      (matched : Bool) (score : X.Decimal) (secondary : List (ConditionEvaluation X))
      → count_passed primary ≡ passing side context plan.primary
      → length primary ≡ length plan.primary
      → combine mode plan primary side context ≡ ok (matched, score, secondary)
      → matched ≡ meets mode plan side context
  combine-meets SignalCombinationMode.all plan primary matched score secondary c n h =
      let m : matched ≡ (ltb 0 (length primary) && (count_passed primary == length primary)) = cc in
      rw (m, c, n, not-is_empty plan.primary, sym (all_pass-passing side context plan.primary))
  combine-meets SignalCombinationMode.any plan primary matched score secondary c n h =
      let m : matched ≡ ltb 0 (count_passed primary) = cc in
      rw (m, c, any-keep (passes side context) plan.primary)
  combine-meets SignalCombinationMode.n_of_m plan primary matched score secondary c n h =
      let m : matched ≡ (
          ltb 0 (unwrap_or plan.n_required 0)
          && leb (unwrap_or plan.n_required 0) (count_passed primary)) =
        cc in
      rw (m, c)
  combine-meets SignalCombinationMode.weighted_score plan primary matched score secondary c n h =
      let (more, k, h1) =
        >>=-eq-ok (try_map (λ condition. evaluate_condition condition side context) plan.secondary)
          _ h in
      let (counts, lengths) = try_map-passing side context plan.secondary more k in
      let m : matched ≡ (
          ltb 0 (length primary + length more)
          && X.decimal_le (unwrap_or plan.score_threshold X.decimal_one)
              (score_ratio X (count_passed (primary ++ more)) (length primary + length more))) =
        cc in
      rw (
        m,
        length-keep_append (λ item. item.passed) primary more,
        c,
        n,
        counts,
        lengths,
        length-append plan.primary plan.secondary,
        length-keep_append (passes side context) plan.primary plan.secondary,
      )

  evaluate_primary-meets :
      (plan : SignalPlan X) (sequence : List (ConditionEvaluation X)) (r : RuleSetEvaluation X)
      → evaluate_primary plan side context sequence ≡ ok r
      → r.matched ≡ meets plan.mode plan side context
  evaluate_primary-meets plan sequence r h =
      let (primary, k, h1) =
        >>=-eq-ok (try_map (λ condition. evaluate_condition condition side context) plan.primary) _
          h in
      let (counts, lengths) = try_map-passing side context plan.primary primary k in
      let ((matched, score, secondary), k2, h2) =
        >>=-eq-ok (combine plan.mode plan primary side context) _ h1 in
      let e : matched ≡ r.matched = cc in
      sym e ∙ combine-meets plan.mode plan primary matched score secondary counts lengths k2

  after_sequence-admits :
      (plan : SignalPlan X) (outcome : ConditionEvaluation X ⊎ List (ConditionEvaluation X))
      (r : RuleSetEvaluation X)
      → after_sequence plan side context outcome ≡ ok r
      → r.matched ≡ (is_inr outcome && meets plan.mode plan side context)
  after_sequence-admits plan (inl evaluation) r h = cc
  after_sequence-admits plan (inr sequence) r h = evaluate_primary-meets plan sequence r h

  after_filter-admits :
      (plan : SignalPlan X) (outcome : Option (ConditionEvaluation X)) (r : RuleSetEvaluation X)
      → after_filter plan side context outcome ≡ ok r
      → r.matched ≡ (
          not (is_some outcome)
          && all_pass side context plan.sequence
          && meets plan.mode plan side context)
  after_filter-admits plan (some evaluation) r h = cc
  after_filter-admits plan none r h =
      let (outcome, k, h1) = >>=-eq-ok (sequence_evaluations plan.sequence side context) _ h in
      rw (
        after_sequence-admits plan outcome r h1,
        sequence_evaluations-passes side context plan.sequence outcome k,
      )

  -- A signal plan that evaluates matches exactly when its regime filter passes, every condition of
  -- its sequence passes, and its conditions meet its mode: there are primary conditions and all of
  -- them pass; one of them passes; at least the required number, not zero, of them passes; or the
  -- share of passes among the primary and the secondary conditions reaches the threshold.
  pub evaluate_signal_plan-admits :
      (plan : SignalPlan X) (r : RuleSetEvaluation X)
      → evaluate_signal_plan plan side context ≡ ok r
      → r.matched ≡ admits plan side context
  unfolding evaluate_signal_plan
  evaluate_signal_plan-admits plan r h =
      let (filtered, e1, h1) = >>=-eq-ok (filter_evaluation plan.regime_filter side context) _ h in
      rw (
        after_filter-admits plan filtered r h1,
        filter_evaluation-passes side context plan.regime_filter filtered e1,
      )
