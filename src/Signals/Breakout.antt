-- ===== src/Signals/Breakout.antt =====
-- Where the targets of a breakout of signals/watching.ts lie.
use combine_trade.Prelude.{true, Option, none, some, ◌≡◌, arith}
use combine_trade.Core.Types.{DailyBias}
use combine_trade.Core.Decimal.{Decimal, IsOrdered, ◌≼◌}
use combine_trade.Core.Order.{gt→le, lt→le}
use combine_trade.Exits.Checker.{is_tp_hit}
use combine_trade.Daemon.Pipeline.{
  Candle, BollingerResult, AllIndicators, WatchingResult, squeeze, expansion, normal, SqueezeState,
}
use combine_trade.Signals.Watching.{breakout_at, squeezed_out, detect_squeeze_breakout}

module _ {D : Type 0} ⦃dec : Decimal D⦄ where
  -- Both targets count as hit at the price.
  abbrev pub IsHitAt : D → Option (WatchingResult D) → Type 0
  IsHitAt price none = Unit
  IsHitAt price (some result) =
      (is_tp_hit result.direction price result.tp1_price ≡ true)
      × (is_tp_hit result.direction price result.tp2_price ≡ true)

  breakout_at-IsHitAt :
      (order : IsOrdered D) (candle : Candle D) (bias : DailyBias) (bb20 : BollingerResult D)
      (sma20 : D)
      → bb20.lower ≼ sma20
      → sma20 ≼ bb20.upper
      → IsHitAt candle.close (breakout_at candle bias bb20 sma20)
  unfolding breakout_at is_tp_hit
  breakout_at-IsHitAt order candle bias bb20 sma20 below above = ground (
    arith,
    gt→le order candle.close bb20.upper,
    lt→le order candle.close bb20.lower,
    order.gte-eq candle.close sma20,
    order.gte-eq candle.close bb20.lower,
    order.le_trans sma20 bb20.upper candle.close,
    order.le_trans bb20.lower sma20 candle.close,
    order.le_trans candle.close bb20.lower sma20,
    order.le_trans candle.close sma20 bb20.upper,
  )

  squeezed_out-IsHitAt :
      (order : IsOrdered D) (state : SqueezeState) (candle : Candle D) (bias : DailyBias)
      (bb20 : BollingerResult D) (sma20 : D)
      → bb20.lower ≼ sma20
      → sma20 ≼ bb20.upper
      → IsHitAt candle.close (squeezed_out state candle bias (some bb20) (some sma20))
  squeezed_out-IsHitAt order expansion candle bias bb20 sma20 below above =
      breakout_at-IsHitAt order candle bias bb20 sma20 below above
  squeezed_out-IsHitAt order squeeze candle bias bb20 sma20 below above = tt
  squeezed_out-IsHitAt order normal candle bias bb20 sma20 below above = tt

  -- Where the average lies between the bands, a candle that is watched for a breakout has hit both
  -- targets at its own close.
  pub detect_squeeze_breakout-IsHitAt :
      {N : Type 0} (order : IsOrdered D) (candle : Candle D) (indicators : AllIndicators D N)
      (bias : DailyBias) (bb20 : BollingerResult D) (sma20 : D)
      → indicators.bb20 ≡ some bb20
      → indicators.sma20 ≡ some sma20
      → bb20.lower ≼ sma20
      → sma20 ≼ bb20.upper
      → IsHitAt candle.close (detect_squeeze_breakout candle indicators bias)
  unfolding detect_squeeze_breakout
  detect_squeeze_breakout-IsHitAt order candle indicators bias bb20 sma20 e f below above =
      rw (e, f) (squeezed_out-IsHitAt order indicators.squeeze candle bias bb20 sma20 below above)
