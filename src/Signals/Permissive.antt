-- ===== src/Signals/Permissive.antt =====
-- What the threshold of one minute of signals/safety-gate.ts lets through.
use combine_trade.Prelude.{true, false, List, ◌≡◌, ◌⊎◌, arith}
use combine_trade.Core.Types.{Direction, m1}
use combine_trade.Core.Decimal.{Decimal, lit, lt, is_zero}
use combine_trade.Daemon.Pipeline.{Candle, AllIndicators, SafetySymbolState}
use combine_trade.Signals.Safety.{
  is_trend_following, range_of, wick_of, check_wick_ratio, check_safety,
}

module _ {D N : Type 0} ⦃dec : Decimal D⦄ where
  -- A candle is safe on one minute only with the trend, without a range, or where its wick is the whole
  -- range, if the ratio of a smaller wick to the range is below one.
  pub check_safety-m1 :
      (candle : Candle D) (indicators : AllIndicators D N) (direction : Direction)
      (state : SafetySymbolState D) (recent_candles : List (Candle D))
      → (lt (wick_of candle direction) (range_of candle) ≡ true
          → lt (dec.divided_by (wick_of candle direction) (range_of candle)) (lit 10 1) ≡ true)
      → (check_safety candle indicators (direction, m1) state recent_candles).passed ≡ true
      → (is_trend_following direction state.daily_bias ≡ true)
        ⊎ ((is_zero (range_of candle) ≡ true)
            ⊎ (lt (wick_of candle direction) (range_of candle) ≡ false))
  unfolding check_safety check_wick_ratio
  check_safety-m1 candle indicators direction state recent_candles below passed = ground arith
