-- ===== src/Signals/Safety.antt =====
-- signals/safety-gate.ts: the four filters and checkSafety.
use combine_trade.Prelude.{
  ℕ, zero, suc, ◌-◌, Bool, true, false, ◌&&◌, ◌||◌, List, [], ◌∷◌, Option, none, some, Text, codes,
  length, ltb, if◌then◌else◌,
}
use combine_trade.Core.Types.{
  Direction, long, short, VectorTimeframe, m5, m1, DailyBias, long_only, short_only,
}
use combine_trade.Core.Decimal.{Decimal, nought, lit, add, sub, mul, min, max, lt, gt, is_zero}
use combine_trade.Daemon.Pipeline.{
  Candle, BollingerResult, AllIndicators, SafetyResult, SafetySymbolState,
}

-- The direction is the one of the bias.
abbrev pub is_trend_following : Direction → Option DailyBias → Bool
is_trend_following long (some long_only) = true
is_trend_following short (some short_only) = true
is_trend_following _ _ = false

abbrev pub drop {ℓ} : {A : Type ℓ} → ℕ → List A → List A
drop zero xs = xs
drop (suc n) [] = []
drop (suc n) (x ∷ xs) = drop n xs

-- slice(-n)
abbrev pub slice_last {ℓ} : {A : Type ℓ} → ℕ → List A → List A
slice_last n xs = drop (length xs - n) xs

-- Array.prototype.push of each failure that there is.
abbrev pub failures : List (Option Text) → List Text
failures [] = []
failures (none ∷ rest) = failures rest
failures (some reason ∷ rest) = reason ∷ failures rest

abbrev no_reasons : List Text → Bool
no_reasons [] = true
no_reasons (x ∷ xs) = false

module _ {D : Type 0} ⦃dec : Decimal D⦄ where
  abbrev pub wick_ratio_threshold : VectorTimeframe → D
  wick_ratio_threshold m5 = lit 1 1
  wick_ratio_threshold m1 = lit 10 1

  abbrev pub range_of : Candle D → D
  range_of candle = sub candle.high candle.low

  -- The wick on the side of the stop.
  abbrev pub wick_of : Candle D → Direction → D
  wick_of candle long = sub (min candle.open_price candle.close) candle.low
  wick_of candle short = sub candle.high (max candle.open_price candle.close)

  unfoldable pub check_wick_ratio :
      Candle D → Direction → VectorTimeframe → Option DailyBias → Option Text
  check_wick_ratio candle direction timeframe daily_bias =
      if is_trend_following direction daily_bias || is_zero (range_of candle)
      then none
      else if lt (dec.divided_by (wick_of candle direction) (range_of candle))
          (wick_ratio_threshold timeframe)
      then some (codes "wick_ratio_exceeded")
      else none

  abbrev pub is_near : D → D → D → Bool
  is_near price middle margin = gt price (sub middle margin) && lt price (add middle margin)

  abbrev pub box_failure : D → Option D → Option (BollingerResult D) → Option Text
  box_failure price (some sma20) (some bb20) =
      if is_near price sma20 (mul (sub bb20.upper bb20.lower) (lit 15 2))
      then some (codes "inside_box_center")
      else none
  box_failure price _ _ = none

  abbrev pub total_range : D → List (Candle D) → D
  total_range sum [] = sum
  total_range sum (c ∷ cs) = total_range (add sum (range_of c)) cs

  unfoldable pub check_abnormal_candle :
      Candle D → List (Candle D) → Option DailyBias → Direction → Option Text
  check_abnormal_candle candle recent_candles daily_bias direction =
      if ltb (length recent_candles) 5 || is_trend_following direction daily_bias
      then none
      else if gt (range_of candle) (
          mul (dec.divided_by (total_range nought (slice_last 5 recent_candles)) (lit 5 0))
            (lit 20 1))
      then some (codes "abnormal_candle")
      else none

  -- The average of five minutes and the bias.
  abbrev pub noise_failure : D → Option D → Option DailyBias → Option Text
  noise_failure close (some sma20_5m) (some long_only) =
      if gt close sma20_5m then none else some (codes "noise_1m")
  noise_failure close (some sma20_5m) (some short_only) =
      if gt close sma20_5m then some (codes "noise_1m") else none
  noise_failure close _ _ = none

  module _ {N : Type 0} where
    unfoldable pub check_box_range : Candle D → AllIndicators D N → Option Text
    check_box_range candle indicators = box_failure candle.close indicators.sma20 indicators.bb20

    unfoldable pub check_noise_1m :
        Candle D → AllIndicators D N → VectorTimeframe → Option DailyBias → Option Text
    check_noise_1m candle indicators m5 daily_bias = none
    check_noise_1m candle indicators m1 daily_bias =
        noise_failure candle.close indicators.sma20_5m daily_bias

    unfoldable pub check_safety :
        Candle D
        → AllIndicators D N
        → Direction × VectorTimeframe
        → SafetySymbolState D
        → List (Candle D)
        → SafetyResult
    unfolding check_wick_ratio check_box_range check_abnormal_candle check_noise_1m
    check_safety candle indicators (direction, timeframe) state recent_candles =
        let reasons = failures (
          check_wick_ratio candle direction timeframe state.daily_bias
          ∷ check_box_range candle indicators
          ∷ check_abnormal_candle candle recent_candles state.daily_bias direction
          ∷ check_noise_1m candle indicators timeframe state.daily_bias
          ∷ []) in
        record { passed = no_reasons reasons; reasons = reasons }
