-- ===== src/StrategyRuntime/Compiled.antt =====
-- What `compile` of crates/strategy_runtime/src/lib.rs has checked of the conditions it returns.
use tv_bot_core.Base.{
  ◌%◌, ◌^◌, ◌≤◌, true, List, [], ◌∷◌, ◌≡◌, ok, any, All, refl, arith, trim, >>=-eq-ok, >>=-Ensures,
  ok-Ensures, try_map, try_option, unwrap_or, ok_or,
}
use tv_bot_core.External.{Externals}
use tv_bot_core.CoreTypes.{CompiledStrategy, timeframe_eq}
use tv_bot_core.RuleEngine.Conditions.{CompiledCondition, timeframe_of, required_bars}
use tv_bot_core.RuleEngine.Evaluate.{get_bars}
use tv_bot_core.StrategyRuntime.Definition.{RuntimeStrategyDefinition}
use tv_bot_core.StrategyRuntime.Compile.{
  parse_time, parse_weekday, compile_window, compile_flatten_rule, compile_signal_plan,
  compile_entry_conditions, compile_conditions, validate_condition_requirements,
  validate_conditions, all_conditions, compile,
}

module _ {X : Externals} (strategy : CompiledStrategy X) where
  -- The strategy declares the condition's timeframe, and the bars that it requires there, as the
  -- 32-bit comparison of the code reads them.
  abbrev pub IsDeclared : CompiledCondition X → Type 0
  IsDeclared condition =
      (any (λ t. timeframe_eq t (timeframe_of condition.expression))
          strategy.data_requirements.timeframes
        ≡ true)
      × (required_bars condition.expression % 2 ^ 32
          ≤ unwrap_or (get_bars strategy.warmup.bars_required (timeframe_of condition.expression))
              0)

  requirements-IsDeclared :
      (condition : CompiledCondition X)
      → validate_condition_requirements strategy condition ≡ ok tt
      → IsDeclared condition
  unfolding validate_condition_requirements
  requirements-IsDeclared condition h = ground arith

  validate-IsDeclared :
      (conditions : List (CompiledCondition X))
      → validate_conditions strategy conditions ≡ ok tt
      → All IsDeclared conditions
  unfolding validate_conditions
  validate-IsDeclared [] h = tt
  validate-IsDeclared (condition ∷ conditions) h =
      let (u, e, h1) = >>=-eq-ok (validate_condition_requirements strategy condition) _ h in
      (requirements-IsDeclared condition e, validate-IsDeclared conditions h1)

  -- A strategy that compiles declares, for every condition of its signal plan, its entries and its
  -- exits, the condition's timeframe, and at least as many warmup bars there as the condition requires
  -- modulo 2^32. The definition keeps the strategy it was compiled from.
  pub compile-IsDeclared :
      (definition : RuntimeStrategyDefinition X)
      → compile strategy ≡ ok definition
      → (definition.strategy ≡ strategy)
        × All IsDeclared (
            all_conditions definition.signal_plan definition.entry_conditions
              definition.exit_conditions)
  unfolding compile
  compile-IsDeclared =
      >>=-Ensures (ok_or (X.tz_from_str (trim strategy.session.timezone)) _) _ λ timezone _.
        >>=-Ensures (try_option (compile_window X) strategy.session.trade_window) _ λ window _.
          >>=-Ensures
            (try_option (parse_time X "session.no_new_entries_after")
              strategy.session.no_new_entries_after)
            _
            λ cutoff _.
              >>=-Ensures (try_option (compile_flatten_rule X) strategy.session.flatten_rule) _
                λ rule _.
                  >>=-Ensures (try_map parse_weekday strategy.session.allowed_days) _ λ days _.
                    >>=-Ensures (compile_signal_plan X strategy) _ λ plan _.
                      >>=-Ensures (compile_entry_conditions X strategy.entry_rules.entry_conditions)
                        _
                        λ entry _.
                          >>=-Ensures (compile_conditions X strategy.exit_rules.exit_conditions) _
                            λ exit _.
                              >>=-Ensures
                                (validate_conditions strategy (all_conditions plan entry exit)) _
                                λ _ valid.
                                  ok-Ensures
                                    (λ d.
                                      (d.strategy ≡ strategy)
                                      × All IsDeclared (
                                          all_conditions d.signal_plan d.entry_conditions
                                            d.exit_conditions))
                                    _ (refl, validate-IsDeclared _ valid)
