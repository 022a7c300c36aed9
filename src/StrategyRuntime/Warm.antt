-- ===== src/StrategyRuntime/Warm.antt =====
-- A strategy that crates/strategy_runtime/src/lib.rs compiles, evaluated on buffers of bars.
use mathlib.Core.Path.{subst}
use tv_bot_core.Base.{
  All-zip, ℕ, ◌%◌, ◌^◌, ◌≤◌, ◌<◌, true, false, some, List, [], ◌∷◌, ◌≡◌, ok, not, any, length, All,
  Returns, unwrap_or, refl, sym, ◌∙◌, ap, arith, inl, inr, Bool-cases, Option-cases, if_true,
  if_false,
}
use tv_bot_core.External.{Externals}
use tv_bot_core.CoreTypes.{Timeframe, timeframe_eq, CompiledStrategy}
use tv_bot_core.Indicators.{BarInput}
use tv_bot_core.Indicators.Series.{IsUniform}
use tv_bot_core.RuleEngine.Conditions.{
  EvaluationSide, CompiledCondition, ConditionExpression, timeframe_of, required_bars,
}
use tv_bot_core.RuleEngine.Evaluate.{get_bars}
use tv_bot_core.RuleEngine.Dispatch.{evaluate_condition}
use tv_bot_core.RuleEngine.Evaluates.{IsUsable, evaluate_condition-Returns}
use tv_bot_core.StrategyRuntime.Definition.{
  StrategyRuntimeState, RuntimeStrategyDefinition, StrategyMarketSnapshot,
}
use tv_bot_core.StrategyRuntime.Compile.{all_conditions, compile}
use tv_bot_core.StrategyRuntime.Session.{buffer_ready, warmup_buffers_ready}
use tv_bot_core.StrategyRuntime.Engine.{context_of, evaluate}
use tv_bot_core.StrategyRuntime.Entries.{hold_back-none}
use tv_bot_core.StrategyRuntime.Compiled.{IsDeclared, compile-IsDeclared}
use tv_bot_core.StrategyRuntime.Ready.{evaluate-Returns}

timeframe_eq→≡ : (a b : Timeframe) → timeframe_eq a b ≡ true → a ≡ b
timeframe_eq→≡ Timeframe.one_second Timeframe.one_second h = refl
timeframe_eq→≡ Timeframe.one_minute Timeframe.one_minute h = refl
timeframe_eq→≡ Timeframe.five_minute Timeframe.five_minute h = refl
timeframe_eq→≡ Timeframe.one_second Timeframe.one_minute h = cc
timeframe_eq→≡ Timeframe.one_second Timeframe.five_minute h = cc
timeframe_eq→≡ Timeframe.one_minute Timeframe.one_second h = cc
timeframe_eq→≡ Timeframe.one_minute Timeframe.five_minute h = cc
timeframe_eq→≡ Timeframe.five_minute Timeframe.one_second h = cc
timeframe_eq→≡ Timeframe.five_minute Timeframe.one_minute h = cc

pub some_injective : {A : Type 0} {a b : A} → some a ≡ some b → a ≡ b
some_injective h = cc

module _ {X : Externals} where
  required_bars-positive :
      (expression : ConditionExpression X) → IsUsable expression → 0 < required_bars expression
  unfolding required_bars
  required_bars-positive (ConditionExpression.trend_filter params) h = omega arith
  required_bars-positive (ConditionExpression.trend_up params) h = omega arith
  required_bars-positive (ConditionExpression.trend_down params) h = omega arith
  required_bars-positive (ConditionExpression.breakout_up params) h = omega arith
  required_bars-positive (ConditionExpression.breakout_down params) h = omega arith
  required_bars-positive (ConditionExpression.rejection params) h = omega arith
  required_bars-positive (ConditionExpression.volume_gate params) h = omega arith
  required_bars-positive (ConditionExpression.pullback_done params) h = omega arith
  required_bars-positive (ConditionExpression.fail_structure params) h = omega arith
  required_bars-positive (ConditionExpression.regime_invalid params) h = omega arith
  required_bars-positive (ConditionExpression.close_above_sma params) h = omega arith
  required_bars-positive (ConditionExpression.close_below_sma params) h = omega arith
  required_bars-positive (ConditionExpression.sma_cross_up params) h = omega arith
  required_bars-positive (ConditionExpression.sma_cross_down params) h = omega arith

  -- When every buffer is ready, so is the one of a timeframe that is looked up.
  all_ready :
      (snapshot : StrategyMarketSnapshot X) (entries : List (Timeframe × ℕ)) (timeframe : Timeframe)
      (declared : ℕ)
      → any (λ entry. not (buffer_ready snapshot entry)) entries ≡ false
      → get_bars entries timeframe ≡ some declared
      → buffer_ready snapshot (timeframe, declared) ≡ true
  unfolding get_bars
  all_ready snapshot [] timeframe declared h e = cc
  all_ready snapshot ((key, required) ∷ entries) timeframe declared h e =
      elim (Bool-cases (timeframe_eq key timeframe)) [
        | inl same ↦
            let found : some required ≡ some declared =
              sym (if_true (some required) (get_bars entries timeframe) same) ∙ e in
            let here : buffer_ready snapshot (key, required) ≡ true = ground arith in
            rw (sym (timeframe_eq→≡ key timeframe same), sym (some_injective found)) here
        | inr other ↦
            all_ready snapshot entries timeframe declared (ground arith)
              (sym (if_false (some required) (get_bars entries timeframe) other) ∙ e)
      ]

  ready-bars :
      (snapshot : StrategyMarketSnapshot X) (timeframe : Timeframe) (declared : ℕ)
      → buffer_ready snapshot (timeframe, declared) ≡ true
      → (bars : List (BarInput X)) × (get_bars snapshot.bars_by_timeframe timeframe ≡ some bars)
        × (declared ≤ length bars)
  ready-bars snapshot timeframe declared h =
      elim (Option-cases (get_bars snapshot.bars_by_timeframe timeframe)) [
        | inl e ↦ ground arith
        | inr (bars, e) ↦ (bars, e, ground arith)
      ]

module _ {X : Externals} (definition : RuntimeStrategyDefinition X)
    (snapshot : StrategyMarketSnapshot X) where
  -- Periods that the indicators accept, and a count of bars that fits 32 bits.
  abbrev pub IsSmall : CompiledCondition X → Type 0
  IsSmall condition = IsUsable condition.expression × (required_bars condition.expression < 2 ^ 32)

  condition-Returns :
      (side : EvaluationSide) (condition : CompiledCondition X)
      → warmup_buffers_ready definition snapshot ≡ true
      → definition.strategy.warmup.ready_requires_all ≡ true
      → ((timeframe : Timeframe) (bars : List (BarInput X))
          → get_bars snapshot.bars_by_timeframe timeframe ≡ some bars
          → IsUniform bars)
      → IsDeclared definition.strategy condition
      → IsSmall condition
      → Returns (evaluate_condition condition side (context_of snapshot))
  unfolding warmup_buffers_ready
  condition-Returns side condition ready requires uniform declares small =
      let timeframe = timeframe_of condition.expression in
      let positive = required_bars-positive condition.expression small.0 in
      elim (Option-cases (get_bars definition.strategy.warmup.bars_required timeframe)) [
        | inl e ↦
            let bound : required_bars condition.expression % 2 ^ 32 ≤ 0 =
              subst (λ o. required_bars condition.expression % 2 ^ 32 ≤ unwrap_or o 0) e
                declares.1 in
            absurd (omega arith)
        | inr (declared, e) ↦
            let bound : required_bars condition.expression % 2 ^ 32 ≤ declared =
              subst (λ o. required_bars condition.expression % 2 ^ 32 ≤ unwrap_or o 0) e
                declares.1 in
            let (bars, found, many) = ready-bars snapshot timeframe declared (
              all_ready snapshot definition.strategy.warmup.bars_required timeframe declared
                (ground arith) e) in
            evaluate_condition-Returns condition side (context_of snapshot) bars small.0 found
              (uniform timeframe bars found) (omega arith)
      ]

  -- A strategy that compiles and wants all of its buffers ready evaluates on every snapshot without an
  -- error, from every state, when the periods of its conditions are positive, no condition requires
  -- 2^32 bars, and the bars of each timeframe in the snapshot are all of one timeframe.
  pub compile-evaluate :
      (strategy : CompiledStrategy X) (state : StrategyRuntimeState)
      → compile strategy ≡ ok definition
      → strategy.warmup.ready_requires_all ≡ true
      → All IsSmall (
          all_conditions definition.signal_plan definition.entry_conditions
            definition.exit_conditions)
      → ((timeframe : Timeframe) (bars : List (BarInput X))
          → get_bars snapshot.bars_by_timeframe timeframe ≡ some bars
          → IsUniform bars)
      → Returns (evaluate definition state snapshot)
  compile-evaluate strategy state compiled requires small uniform =
      let (same, declares) = compile-IsDeclared strategy definition compiled in
      evaluate-Returns definition state snapshot λ none_held side.
        let (_, ready, _) = hold_back-none definition snapshot none_held in
        All-zip _
          (λ condition d m.
            condition-Returns side condition ready
              (ap (λ s. s.warmup.ready_requires_all) same ∙ requires) uniform
              (subst (λ s. IsDeclared s condition) (sym same) d) m)
          declares small
