-- ===== src/Indicators/Tests.antt =====
-- Runs of the indicators.
use tv_bot_core.Base.{◌+ℤ◌, All, All, pos, leb_ℤ, true, ◌≡◌, ok, err, Returns, refl, arith}
use tv_bot_core.External.{DecimalOrder}
use tv_bot_core.Sample.{cents, rising}
use tv_bot_core.Indicators.{IndicatorError, simple_moving_average, highest_high, last_bars}
use tv_bot_core.Indicators.Series.{indicators-Returns_iff}
use tv_bot_core.Indicators.Extremes.{extremes_lem, IsFieldOf}

average_of_rising : simple_moving_average cents rising 2 ≡ ok (pos 17)
unfolding simple_moving_average ◌+ℤ◌
average_of_rising = refl

too_few : simple_moving_average cents rising 4 ≡ err (IndicatorError.insufficient_bars 4 3)
unfolding simple_moving_average
too_few = refl

cents_order : DecimalOrder cents
cents_order = record { le_total = λ a b h. ground arith; le_trans = λ a b c h k. ground arith }

indicators-Returns_iff_example : Returns (simple_moving_average cents rising 3)
indicators-Returns_iff_example =
    (indicators-Returns_iff cents rising 3).0.1 (omega arith, omega arith, (refl, (refl, tt)))

extremes_lem_example :
    IsFieldOf (λ b. b.high) (pos 21) (last_bars rising 2)
    × All (λ b. leb_ℤ b.high (pos 21) ≡ true) (last_bars rising 2)
unfolding highest_high
extremes_lem_example = (extremes_lem cents_order rising 2 (pos 21)).0 refl
