-- ===== src/RuleEngine/Parsed.antt =====
-- What the parameters of a condition satisfy once crates/rule_engine/src/parser.rs has read them.
use tv_bot_core.Base.Text
use text.Mathlib.Text.{◌==◌}
use tv_bot_core.Base.{
  arith, err-Ensures, if-Ensures, trim, split_once, ok-Ensures, guard-Ensures, >>=-Ensures, Ensures,
  ◌≡◌, ◌<◌, true, false, String, Result, ok, ltb, ltb→lt, not, if◌then◌else◌, ◌||◌,
}
use tv_bot_core.External.{Externals, decimal_lt}
use tv_bot_core.RuleEngine.Conditions.{RuleEngineError, ConditionExpression, CompiledCondition}
use tv_bot_core.RuleEngine.Parse.{
  Parameters, Reader, parse_trend_params, parse_rejection_params, parse_pullback_params,
  parse_cross_params, reader_of, parse_condition_expression, parse_condition, parse_usize_parameter,
  parse_breakout_params, parse_volume_gate_params, parse_sma_params, parse_decimal_parameter,
  read_as, timeframe_parameter, name_and_parameters,
}

trend-Ensures :
    (condition : String) (parameters : Parameters)
    → Ensures (λ p. p.fast_period < p.slow_period) (parse_trend_params condition parameters)
unfolding parse_trend_params
trend-Ensures condition parameters =
    >>=-Ensures (parse_usize_parameter condition parameters "fast" 5) _ λ fast _.
      >>=-Ensures (parse_usize_parameter condition parameters "slow" 20) _ λ slow _.
        guard-Ensures (ltb fast slow) _ _ λ less.
          >>=-Ensures (timeframe_parameter condition parameters) _
            λ timeframe _. ok-Ensures (λ p. p.fast_period < p.slow_period) _ (ltb→lt fast slow less)

pullback-Ensures :
    (condition : String) (parameters : Parameters)
    → Ensures (λ p. p.fast_period < p.slow_period) (parse_pullback_params condition parameters)
unfolding parse_pullback_params
pullback-Ensures condition parameters =
    >>=-Ensures (parse_trend_params condition parameters) _ λ trend e.
      ok-Ensures (λ p. p.fast_period < p.slow_period) _ (trend-Ensures condition parameters trend e)

cross-Ensures :
    (condition : String) (parameters : Parameters)
    → Ensures (λ p. p.fast_period < p.slow_period) (parse_cross_params condition parameters)
unfolding parse_cross_params
cross-Ensures condition parameters =
    >>=-Ensures (parse_trend_params condition parameters) _ λ trend e.
      ok-Ensures (λ p. p.fast_period < p.slow_period) _ (trend-Ensures condition parameters trend e)

between_fractions :
    (X : Externals) (fraction : X.Decimal)
    → not (X.decimal_le fraction X.decimal_zero || X.decimal_le X.decimal_one fraction) ≡ true
    → (decimal_lt X X.decimal_zero fraction ≡ true) × (decimal_lt X fraction X.decimal_one ≡ true)
between_fractions X fraction h = ground arith

module _ {X : Externals} where
  open X use {decimal_zero, decimal_one, decimal_le, decimal_new, decimal_of_unsigned}

  -- A fast period below the slow one, and a fraction strictly between zero and one.
  abbrev pub IsWellFormed : ConditionExpression X → Type 0
  IsWellFormed (ConditionExpression.trend_filter params) = params.fast_period < params.slow_period
  IsWellFormed (ConditionExpression.trend_up params) = params.fast_period < params.slow_period
  IsWellFormed (ConditionExpression.trend_down params) = params.fast_period < params.slow_period
  IsWellFormed (ConditionExpression.fail_structure params) = params.fast_period < params.slow_period
  IsWellFormed (ConditionExpression.regime_invalid params) = params.fast_period < params.slow_period
  IsWellFormed (ConditionExpression.pullback_done params) = params.fast_period < params.slow_period
  IsWellFormed (ConditionExpression.sma_cross_up params) = params.fast_period < params.slow_period
  IsWellFormed (ConditionExpression.sma_cross_down params) = params.fast_period < params.slow_period
  IsWellFormed (ConditionExpression.rejection params) =
      (decimal_lt X decimal_zero params.close_fraction ≡ true)
      × (decimal_lt X params.close_fraction decimal_one ≡ true)
  IsWellFormed _ = Unit

  -- Every condition that a reader returns is well formed.
  abbrev ReadsWell : Reader X → Type 0
  ReadsWell reader =
      (condition : String) (parameters : Parameters)
      → Ensures IsWellFormed (reader condition parameters)

  named-ReadsWell :
      (name word : String) {P : Type 0} (parse : String → Parameters → Result RuleEngineError P)
      (build : P → ConditionExpression X) (rest : Reader X)
      → ((condition : String) (parameters : Parameters)
          → Ensures (λ p. IsWellFormed (build p)) (parse condition parameters))
      → ReadsWell rest
      → ReadsWell (if name == word then read_as X parse build else rest)
  named-ReadsWell name word parse build rest h k condition parameters =
      elim (name == word)
        as (λ b.
          Ensures IsWellFormed ((if b then read_as X parse build else rest) condition parameters)) [
            | true ↦
                >>=-Ensures (parse condition parameters) _
                  λ p e. ok-Ensures IsWellFormed (build p) (h condition parameters p e)
            | false ↦ k condition parameters
          ]

  rejection-Ensures :
      (condition : String) (parameters : Parameters)
      → Ensures
          (λ p. IsWellFormed (ConditionExpression.rejection p))
          (parse_rejection_params X condition parameters)
  unfolding parse_rejection_params
  rejection-Ensures condition parameters =
      >>=-Ensures
        (parse_decimal_parameter X condition parameters "close_fraction" (decimal_new 6 1)) _
        λ fraction _.
          guard-Ensures (not (decimal_le fraction decimal_zero || decimal_le decimal_one fraction))
            _ _
            λ between. >>=-Ensures (timeframe_parameter condition parameters) _ λ timeframe _.
              >>=-Ensures
                (parse_decimal_parameter X condition parameters "wick_ratio"
                  (decimal_of_unsigned 2))
                _
                λ ratio _.
                  ok-Ensures (λ p. IsWellFormed (ConditionExpression.rejection p)) _
                    (between_fractions X fraction between)

  reader_of-ReadsWell : (name : String) → ReadsWell (reader_of X name)
  unfolding reader_of
  reader_of-ReadsWell name =
      named-ReadsWell name "trend_filter" parse_trend_params ConditionExpression.trend_filter _
        trend-Ensures
        (named-ReadsWell name "trend_up" parse_trend_params ConditionExpression.trend_up _
          trend-Ensures
          (named-ReadsWell name "trend_down" parse_trend_params ConditionExpression.trend_down _
            trend-Ensures
            (named-ReadsWell name "breakout_up" parse_breakout_params
              ConditionExpression.breakout_up _ (λ _ _ _ _. tt)
              (named-ReadsWell name "breakout_down" parse_breakout_params
                ConditionExpression.breakout_down _ (λ _ _ _ _. tt)
                (named-ReadsWell name "rejection" (parse_rejection_params X)
                  ConditionExpression.rejection _ rejection-Ensures
                  (named-ReadsWell name "volume_gate" (parse_volume_gate_params X)
                    ConditionExpression.volume_gate _ (λ _ _ _ _. tt)
                    (named-ReadsWell name "pullback_done" parse_pullback_params
                      ConditionExpression.pullback_done _ pullback-Ensures
                      (named-ReadsWell name "fail_structure" parse_trend_params
                        ConditionExpression.fail_structure _ trend-Ensures
                        (named-ReadsWell name "regime_invalid" parse_trend_params
                          ConditionExpression.regime_invalid _ trend-Ensures
                          (named-ReadsWell name "close_above_sma" parse_sma_params
                            ConditionExpression.close_above_sma _ (λ _ _ _ _. tt)
                            (named-ReadsWell name "close_below_sma" parse_sma_params
                              ConditionExpression.close_below_sma _ (λ _ _ _ _. tt)
                              (named-ReadsWell name "sma_cross_up" parse_cross_params
                                ConditionExpression.sma_cross_up _ cross-Ensures
                                (named-ReadsWell name "sma_cross_down" parse_cross_params
                                  ConditionExpression.sma_cross_down _ cross-Ensures
                                  (λ _ _.
                                    err-Ensures IsWellFormed
                                      (RuleEngineError.unknown_condition name)))))))))))))))

  parse_expression-IsWellFormed :
      (raw : String) → Ensures IsWellFormed (parse_condition_expression X raw)
  unfolding parse_condition_expression
  parse_expression-IsWellFormed raw =
      if-Ensures IsWellFormed (Text.is_empty (trim raw)) _ _ (err-Ensures IsWellFormed _) (
        >>=-Ensures (name_and_parameters X (trim raw) (split_once b'(' (trim raw))) _
          λ (name, parameters) _. reader_of-ReadsWell name (trim raw) parameters)

  -- A condition that is read has its fast period below its slow one, where it has both, and the
  -- fraction of a rejection strictly between zero and one.
  pub parse_condition-IsWellFormed :
      (raw : String) (condition : CompiledCondition X)
      → parse_condition X raw ≡ ok condition
      → IsWellFormed condition.expression
  unfolding parse_condition
  parse_condition-IsWellFormed raw =
      >>=-Ensures (parse_condition_expression X raw) _ λ expression e.
        ok-Ensures (λ c. IsWellFormed c.expression) _
          (parse_expression-IsWellFormed raw expression e)
