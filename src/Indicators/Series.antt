-- ===== src/Indicators/Series.antt =====
-- Which series the indicators of crates/indicators/src/lib.rs accept.
use tv_bot_core.Base.{
  ℕ, zero, suc, ◌-◌, ◌≤◌, ◌<◌, ◌≡◌, ◌↔◌, ◌>>◌, >>=-eq-ok, true, List, [], ◌∷◌, Result, ok, length,
  take, drop, All, Returns, >>=-Returns, refl, arith,
}
use tv_bot_core.External.{Externals}
use tv_bot_core.CoreTypes.{Timeframe, timeframe_eq}
use tv_bot_core.Indicators.{
  BarInput, IndicatorError, last_bars, extreme, max_by, min_by, check_timeframes, validate_series,
  latest_bar, simple_moving_average, exponential_moving_average, highest_high, lowest_low,
  average_volume,
}

module _ {X : Externals} where
  -- Every bar has the timeframe of the first.
  abbrev pub IsUniform : List (BarInput X) → Type 0
  IsUniform [] = Unit
  IsUniform (bar ∷ bars) = All (λ b. timeframe_eq b.timeframe bar.timeframe ≡ true) bars

  check_timeframes_iff :
      (expected : Timeframe) (bars : List (BarInput X))
      → (check_timeframes expected bars ≡ ok tt)
        ↔ All (λ b. timeframe_eq b.timeframe expected ≡ true) bars
  unfolding check_timeframes
  check_timeframes_iff expected [] = ground arith
  check_timeframes_iff expected (bar ∷ bars) = ground (arith, check_timeframes_iff expected bars)

  pub validate_series_iff :
      (bars : List (BarInput X)) (n : ℕ)
      → (validate_series bars n ≡ ok tt) ↔ ((0 < n) × (n ≤ length bars) × IsUniform bars)
  unfolding validate_series
  validate_series_iff [] n = ground arith
  validate_series_iff (bar ∷ bars) n = ground (arith, check_timeframes_iff bar.timeframe bars)

  abbrev pub Accepts : List (BarInput X) → ℕ → Type 0
  Accepts bars n = (0 < n) × (n ≤ length bars) × IsUniform bars

  All-take :
      (P : BarInput X → Type 0) (bars : List (BarInput X)) (n : ℕ)
      → All P bars
      → All P (take n bars)
  All-take P bars zero h = tt
  All-take P [] (suc n) h = tt
  All-take P (bar ∷ bars) (suc n) h = (h.0, All-take P bars n h.1)

  length-take : (bars : List (BarInput X)) (n : ℕ) → n ≤ length bars → length (take n bars) ≡ n
  length-take bars zero h = omega arith
  length-take [] (suc n) h = omega arith
  length-take (bar ∷ bars) (suc n) h = omega (arith, length-take bars n (omega arith))

  pub Accepts-take : (bars : List (BarInput X)) (n : ℕ) → Accepts bars n → Accepts (take n bars) n
  Accepts-take bars zero h = absurd (omega arith)
  Accepts-take [] (suc n) h = absurd (omega arith)
  Accepts-take (bar ∷ bars) (suc n) (pos_n, le, all) =
      (pos_n, omega (arith, length-take (bar ∷ bars) (suc n) le), All-take _ bars n all)

  pub length-drop : (bars : List (BarInput X)) (n : ℕ) → length (drop n bars) ≡ length bars - n
  length-drop bars zero = omega arith
  length-drop [] (suc n) = omega arith
  length-drop (bar ∷ bars) (suc n) = omega (arith, length-drop bars n)

  validate-Accepts :
      (bars : List (BarInput X)) (n : ℕ) {B : Type 0} (rest : Result IndicatorError B) {b : B}
      → (validate_series bars n >> rest) ≡ ok b
      → Accepts bars n
  validate-Accepts bars n rest h =
      let (u, e, _) = >>=-eq-ok (validate_series bars n) (λ _. rest) h in
      (validate_series_iff bars n).0 e

  accepted :
      (bars : List (BarInput X)) (n : ℕ) {B : Type 0} (rest : Result IndicatorError B)
      → Accepts bars n
      → Returns rest
      → Returns (validate_series bars n >> rest)
  accepted bars n rest a (b, e) = (b, rw ((validate_series_iff bars n).1 a) e)

  cons_of_length :
      (bars : List (BarInput X))
      → 0 < length bars
      → (bar : BarInput X) × (rest : List (BarInput X)) × (bars ≡ bar ∷ rest)
  cons_of_length [] h = absurd (omega arith)
  cons_of_length (bar ∷ rest) h = (bar, rest, refl)

  last_bars-cons :
      (bars : List (BarInput X)) (n : ℕ)
      → Accepts bars n
      → (bar : BarInput X) × (rest : List (BarInput X)) × (last_bars bars n ≡ bar ∷ rest)
  last_bars-cons bars n h =
      cons_of_length (last_bars bars n) (omega (arith, length-drop bars (length bars - n)))

  latest_bar-Returns : (bars : List (BarInput X)) → Accepts bars 1 → Returns (latest_bar bars)
  unfolding latest_bar
  latest_bar-Returns [] a = absurd (omega arith)
  latest_bar-Returns (bar ∷ bars) a = accepted (bar ∷ bars) 1 _ a (_, refl)

module _ (X : Externals) where
  extreme-Returns :
      (by : (BarInput X → X.Decimal) → X.Decimal → List (BarInput X) → X.Decimal)
      (field : BarInput X → X.Decimal) (bars : List (BarInput X)) (n : ℕ)
      → Accepts bars n
      → Returns (extreme X by field (last_bars bars n))
  extreme-Returns by field bars n a =
      let (bar, rest, e) = last_bars-cons bars n a in (by field (field bar) rest, rw e)

  average-Returns :
      (bars : List (BarInput X)) (n : ℕ) → Accepts bars n → Returns (simple_moving_average X bars n)
  unfolding simple_moving_average
  average-Returns bars n a = accepted bars n _ a (_, refl)

  exponential-Returns :
      (bars : List (BarInput X)) (n : ℕ)
      → Accepts bars n
      → Returns (exponential_moving_average X bars n)
  unfolding exponential_moving_average
  exponential-Returns bars n a = accepted bars n _ a (
      >>=-Returns (simple_moving_average X (take n bars) n) _
        (average-Returns (take n bars) n (Accepts-take bars n a)) λ seed. (_, refl))

  -- Each average and each extreme over the last bars returns a value exactly when the number of bars
  -- asked for is positive and no more than there are, and all bars have one timeframe; so does the
  -- latest bar, when one is asked for.
  pub indicators-Returns_iff :
      (bars : List (BarInput X)) (n : ℕ)
      → (Returns (simple_moving_average X bars n) ↔ Accepts bars n)
        × (Returns (exponential_moving_average X bars n) ↔ Accepts bars n)
        × (Returns (highest_high X bars n) ↔ Accepts bars n)
        × (Returns (lowest_low X bars n) ↔ Accepts bars n)
        × (Returns (average_volume X bars n) ↔ Accepts bars n)
        × (Returns (latest_bar bars) ↔ Accepts bars 1)
  unfolding simple_moving_average exponential_moving_average highest_high lowest_low average_volume
      latest_bar
  indicators-Returns_iff bars n = (
    (λ h. validate-Accepts bars n _ h.1, average-Returns bars n),
    (λ h. validate-Accepts bars n _ h.1, exponential-Returns bars n),
    (
      λ h. validate-Accepts bars n _ h.1,
      λ a. accepted bars n _ a (extreme-Returns (max_by X) (λ bar. bar.high) bars n a),
    ),
    (
      λ h. validate-Accepts bars n _ h.1,
      λ a. accepted bars n _ a (extreme-Returns (min_by X) (λ bar. bar.low) bars n a),
    ),
    (λ h. validate-Accepts bars n _ h.1, λ a. accepted bars n _ a (_, refl)),
    (λ h. validate-Accepts bars 1 _ h.1, latest_bar-Returns bars),
  )
