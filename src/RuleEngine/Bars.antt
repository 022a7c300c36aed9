-- ===== src/RuleEngine/Bars.antt =====
-- The bars that the conditions of crates/rule_engine/src/eval.rs read, and the indicators over them.
use tv_bot_core.Base.{
  ℕ, ◌-◌, ◌<◌, ◌≡◌, some, List, [], ◌∷◌, Result, ok, err, length, All, Returns, refl, arith, ◌>>=◌,
}
use tv_bot_core.External.{Externals}
use tv_bot_core.CoreTypes.{Timeframe}
use tv_bot_core.Indicators.{BarInput, IndicatorError, latest_bar, simple_moving_average}
use tv_bot_core.Indicators.Series.{IsUniform, Accepts, indicators-Returns_iff}
use tv_bot_core.RuleEngine.Conditions.{RuleEngineError, CompiledCondition, RuleEvaluationContext}
use tv_bot_core.RuleEngine.Evaluate.{get_bars, previous_bars, for_condition, bars_for, longer_than}

module _ {X : Externals} where
  length-previous_bars : (bars : List (BarInput X)) → length (previous_bars bars) ≡ length bars - 1
  length-previous_bars [] = refl
  length-previous_bars (bar ∷ []) = refl
  length-previous_bars (bar ∷ next ∷ bars) = omega (arith, length-previous_bars (next ∷ bars))

  All-previous_bars :
      (P : BarInput X → Type 0) (bars : List (BarInput X)) → All P bars → All P (previous_bars bars)
  All-previous_bars P [] h = tt
  All-previous_bars P (bar ∷ []) h = tt
  All-previous_bars P (bar ∷ next ∷ bars) h = (h.0, All-previous_bars P (next ∷ bars) h.1)

  previous_bars-IsUniform :
      (bars : List (BarInput X)) → IsUniform bars → IsUniform (previous_bars bars)
  previous_bars-IsUniform [] h = tt
  previous_bars-IsUniform (bar ∷ []) h = tt
  previous_bars-IsUniform (bar ∷ next ∷ bars) h = All-previous_bars _ (next ∷ bars) h

  pub previous_bars-Accepts :
      (bars : List (BarInput X)) (n : ℕ)
      → 0 < n
      → n < length bars
      → IsUniform bars
      → Accepts (previous_bars bars) n
  previous_bars-Accepts bars n h k u =
      (h, omega (arith, length-previous_bars bars), previous_bars-IsUniform bars u)

  -- What the timeframe of a condition holds.
  abbrev pub Holds : RuleEvaluationContext X → Timeframe → List (BarInput X) → Type 0
  Holds context timeframe bars =
      (get_bars context.bars_by_timeframe timeframe ≡ some bars)
      × (0 < length bars)
      × IsUniform bars

  module _ (condition : CompiledCondition X) (timeframe : Timeframe) where
    pub bars_for-ok :
        (context : RuleEvaluationContext X) (bars : List (BarInput X))
        → Holds context timeframe bars
        → bars_for condition timeframe context ≡ ok bars
    unfolding bars_for
    bars_for-ok context [] h = absurd (omega arith)
    bars_for-ok context (bar ∷ bars) h = rw h.0

    pub step :
        {A B : Type 0} (r : Result IndicatorError A) (rest : A → Result RuleEngineError B)
        → Returns r
        → ((a : A) → Returns (rest a))
        → Returns (for_condition condition timeframe r >>= rest)
    step (ok a) rest h k = k a
    step (err e) rest h k = cc

    pub longer_than-ok :
        (bars : List (BarInput X)) (count : ℕ)
        → count < length bars
        → longer_than condition timeframe bars count ≡ ok tt
    longer_than-ok bars count h = ground arith

module _ (X : Externals) (bars : List (BarInput X)) where
  pub sma-Returns : (n : ℕ) → Accepts bars n → Returns (simple_moving_average X bars n)
  sma-Returns n = (indicators-Returns_iff X bars n).0.1

  pub latest-Returns : 0 < length bars → IsUniform bars → Returns (latest_bar bars)
  latest-Returns h u = (indicators-Returns_iff X bars 1).5.1 (omega arith, omega arith, u)
