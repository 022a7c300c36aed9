-- ===== src/Indicators.antt =====
-- crates/indicators/src/lib.rs: averages, extremes and bar shapes over a series of bars.
use tv_bot_core.Base.{
  ℕ, ◌+◌, ◌-◌, Bool, true, false, Option, none, some, List, [], ◌∷◌, String, Result, ok, err, ◌>>=◌,
  ◌>>◌, guard, ok_or, not, ltb, leb, ◌==◌, length, take, drop, if◌then◌else◌,
}
use tv_bot_core.External.{Externals}
use tv_bot_core.CoreTypes.{Timeframe, MarketEvent, timeframe_eq}
pub mod Series
pub mod Extremes
mod Tests

pub record BarInput (X : Externals) : Type 0 where
  pub symbol : String
  pub timeframe : Timeframe
  pub open_price : X.Decimal
  pub high : X.Decimal
  pub low : X.Decimal
  pub close : X.Decimal
  pub volume : ℕ  -- u64
  pub closed_at : X.DateTime

pub data IndicatorError : Type 0 where
  empty_series not_bar_event invalid_period : IndicatorError
  insufficient_bars : (needed available : ℕ) → IndicatorError
  timeframe_mismatch : (expected found : Timeframe) → IndicatorError

module _ {X : Externals} where
  -- `BarInput::try_from`
  unfoldable pub bar_of_event : MarketEvent X → Result IndicatorError (BarInput X)
  bar_of_event (MarketEvent.bar symbol timeframe open_price high low close volume closed_at) =
      ok (record {
        symbol = symbol;
        timeframe = timeframe;
        open_price = open_price;
        high = high;
        low = low;
        close = close;
        volume = volume;
        closed_at = closed_at;
      })
  bar_of_event _ = err IndicatorError.not_bar_event

  unfoldable pub bars_from_events :
      List (MarketEvent X) → Timeframe → Result IndicatorError (List (BarInput X))
  unfolding bar_of_event
  bars_from_events [] expected = ok []
  bars_from_events (event ∷ events) expected = do
    bar ← bar_of_event event
    guard (timeframe_eq bar.timeframe expected)
        (IndicatorError.timeframe_mismatch expected bar.timeframe)
    bars ← bars_from_events events expected
    ok (bar ∷ bars)

  -- The loop over the bars behind the first.
  unfoldable pub check_timeframes : Timeframe → List (BarInput X) → Result IndicatorError (Unit {0})
  check_timeframes expected [] = ok tt
  check_timeframes expected (bar ∷ bars) =
      guard (timeframe_eq bar.timeframe expected)
        (IndicatorError.timeframe_mismatch expected bar.timeframe)
      >> check_timeframes expected bars

  abbrev first_bar : List (BarInput X) → Option (BarInput X)
  first_bar [] = none
  first_bar (bar ∷ bars) = some bar

  unfoldable pub validate_series : List (BarInput X) → ℕ → Result IndicatorError (Unit {0})
  unfolding check_timeframes
  validate_series bars required_bars = do
    guard (not (required_bars == 0)) IndicatorError.invalid_period
    first ← ok_or (first_bar bars) IndicatorError.empty_series
    guard (not (ltb (length bars) required_bars))
        (IndicatorError.insufficient_bars required_bars (length bars))
    check_timeframes first.timeframe (drop 1 bars)

  abbrev pub last_bar : BarInput X → List (BarInput X) → BarInput X
  last_bar bar [] = bar
  last_bar bar (next ∷ bars) = last_bar next bars

  -- `bars.last().expect(..)`: the empty series does not pass the validation.
  abbrev pub final_bar : List (BarInput X) → Result IndicatorError (BarInput X)
  final_bar [] = err IndicatorError.empty_series
  final_bar (bar ∷ bars) = ok (last_bar bar bars)

  unfoldable pub latest_bar : List (BarInput X) → Result IndicatorError (BarInput X)
  unfolding validate_series
  latest_bar bars = validate_series bars 1 >> final_bar bars

  -- `&bars[bars.len() - n..]`
  abbrev pub last_bars : List (BarInput X) → ℕ → List (BarInput X)
  last_bars bars n = drop (length bars - n) bars

module _ (X : Externals) where
  open X use {
    Decimal, decimal_zero, decimal_of_unsigned, decimal_le, decimal_add, decimal_sub, decimal_mul,
    decimal_div, decimal_is_zero, decimal_new,
  }

  abbrev pub fold_bars : (Decimal → BarInput X → Decimal) → Decimal → List (BarInput X) → Decimal
  fold_bars step value [] = value
  fold_bars step value (bar ∷ bars) = fold_bars step (step value bar) bars

  abbrev pub sum_of : (BarInput X → Decimal) → List (BarInput X) → Decimal
  sum_of field bars = fold_bars (λ total bar. decimal_add total (field bar)) decimal_zero bars

  unfoldable pub simple_moving_average : List (BarInput X) → ℕ → Result IndicatorError Decimal
  unfolding validate_series
  simple_moving_average bars period = do
    validate_series bars period
    ok (
        decimal_div (sum_of (λ bar. bar.close) (last_bars bars period))
          (decimal_of_unsigned period))

  unfoldable pub exponential_moving_average : List (BarInput X) → ℕ → Result IndicatorError Decimal
  unfolding validate_series simple_moving_average
  exponential_moving_average bars period = do
    validate_series bars period
    seed ← simple_moving_average (take period bars) period
    let multiplier = decimal_div (decimal_of_unsigned 2) (decimal_of_unsigned (period + 1))
    ok (
        fold_bars
          (λ value bar. decimal_add (decimal_mul (decimal_sub bar.close value) multiplier) value)
          seed (drop period bars))

  -- `Iterator::max`, which keeps the later of equals, and `Iterator::min`, which keeps the earlier.
  abbrev pub max_by : (BarInput X → Decimal) → Decimal → List (BarInput X) → Decimal
  max_by field best bars =
      fold_bars (λ b bar. if decimal_le b (field bar) then field bar else b) best bars

  abbrev pub min_by : (BarInput X → Decimal) → Decimal → List (BarInput X) → Decimal
  min_by field best bars =
      fold_bars (λ b bar. if decimal_le b (field bar) then b else field bar) best bars

  -- The extreme of a series; the empty one does not pass the validation.
  abbrev pub extreme :
      ((BarInput X → Decimal) → Decimal → List (BarInput X) → Decimal)
      → (BarInput X → Decimal)
      → List (BarInput X)
      → Result IndicatorError Decimal
  extreme by field [] = err IndicatorError.empty_series
  extreme by field (bar ∷ bars) = ok (by field (field bar) bars)

  unfoldable pub highest_high : List (BarInput X) → ℕ → Result IndicatorError Decimal
  unfolding validate_series
  highest_high bars lookback =
      validate_series bars lookback >> extreme max_by (λ bar. bar.high) (last_bars bars lookback)

  unfoldable pub lowest_low : List (BarInput X) → ℕ → Result IndicatorError Decimal
  unfolding validate_series
  lowest_low bars lookback =
      validate_series bars lookback >> extreme min_by (λ bar. bar.low) (last_bars bars lookback)

  unfoldable pub average_volume : List (BarInput X) → ℕ → Result IndicatorError Decimal
  unfolding validate_series
  average_volume bars period = do
    validate_series bars period
    ok (
        decimal_div (sum_of (λ bar. decimal_of_unsigned bar.volume) (last_bars bars period))
          (decimal_of_unsigned period))

  unfoldable pub bar_range : BarInput X → Decimal
  bar_range bar = decimal_sub bar.high bar.low

  unfoldable pub bar_body : BarInput X → Decimal
  bar_body bar =
      if decimal_le bar.open_price bar.close
      then decimal_sub bar.close bar.open_price
      else decimal_sub bar.open_price bar.close

  unfoldable pub upper_wick : BarInput X → Decimal
  upper_wick bar =
      decimal_sub bar.high
        (if decimal_le bar.open_price bar.close then bar.close else bar.open_price)

  unfoldable pub lower_wick : BarInput X → Decimal
  lower_wick bar =
      decimal_sub (if decimal_le bar.close bar.open_price then bar.close else bar.open_price)
        bar.low

  unfoldable pub close_position_ratio : BarInput X → Decimal
  unfolding bar_range
  close_position_ratio bar =
      if decimal_is_zero (bar_range bar)
      then decimal_new 5 1
      else decimal_div (decimal_sub bar.close bar.low) (bar_range bar)
