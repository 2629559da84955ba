-- ===== src/Signals/Evidence.antt =====
-- signals/evidence-gate.ts: calcSlPrice and checkEvidence. The details of the evidence, which are only
-- stored, are left out, and so is the row that createSignal writes.
use combine_trade.Prelude.{Bool, true, false, not, ◌&&◌, Option, none, some, if◌then◌else◌}
use combine_trade.Core.Types.{Direction, long, short, eq_direction, one_b, double_b}
use combine_trade.Core.Decimal.{Decimal, lit, add, sub, mul, min, max, lte, gte, gt, eq, is_zero}
use combine_trade.Daemon.Pipeline.{
  Candle, BollingerResult, AllIndicators, WatchSession, EvidenceResult,
}

module _ {D : Type 0} ⦃dec : Decimal D⦄ where
  -- From the body of the candle to its low, or to its high.
  abbrev pub tail_length : Candle D → Direction → D
  tail_length candle long = sub (min candle.open_price candle.close) candle.low
  tail_length candle short = sub candle.high (max candle.open_price candle.close)

  abbrev pub buffer_of : Candle D → D → D
  buffer_of candle tail =
      if is_zero tail then mul (sub candle.high candle.low) (lit 15 2) else mul tail (lit 15 2)

  abbrev pub stop_at : Candle D → Direction → D → D
  stop_at candle long buffer = if is_zero buffer then candle.close else sub candle.low buffer
  stop_at candle short buffer = if is_zero buffer then candle.close else add candle.high buffer

  unfoldable pub calc_sl_price : Candle D → Direction → D
  calc_sl_price candle direction =
      stop_at candle direction (buffer_of candle (tail_length candle direction))

  abbrev pub touch_direction : Candle D → BollingerResult D → Option Direction
  touch_direction candle bb4 =
      if lte candle.low bb4.lower
      then some long
      else if gte candle.high bb4.upper
      then some short
      else none

  -- Whether the candle touches the band of its direction.
  abbrev pub touches : Direction → Candle D → Option (BollingerResult D) → Bool
  touches direction candle none = false
  touches long candle (some bands) = lte candle.low bands.lower
  touches short candle (some bands) = gte candle.high bands.upper

  abbrev pub slope_fits : Direction → Option D → Option D → Bool
  slope_fits long (some now) (some before) = gt now before
  slope_fits short (some now) (some before) = not (gt now before) && not (eq now before)
  slope_fits direction _ _ = true

  module _ {N : Type 0} where
    unfoldable pub evidence_of :
        Candle D → AllIndicators D N → WatchSession D → Direction → Option (EvidenceResult D)
    evidence_of candle indicators session direction =
        let double = touches direction candle indicators.bb20 in
        if not (eq_direction direction session.direction)
        then none
        else if not double && not (slope_fits direction indicators.sma20 indicators.prev_sma20)
        then none
        else some (record {
          signal_type = if double then double_b else one_b;
          direction = direction;
          entry_price = candle.close;
          sl_price = calc_sl_price candle direction;
          a_grade = touches direction candle indicators.bb4_1h;
        })

    abbrev pub evidence_at :
        Candle D → AllIndicators D N → WatchSession D → Option Direction → Option (EvidenceResult D)
    evidence_at candle indicators session none = none
    evidence_at candle indicators session (some direction) =
        evidence_of candle indicators session direction

    unfoldable pub check_evidence :
        Candle D → AllIndicators D N → WatchSession D → Option (EvidenceResult D)
    unfolding evidence_of
    check_evidence candle indicators session = elim indicators.bb4 [
      | none ↦ none
      | some bb4 ↦ evidence_at candle indicators session (touch_direction candle bb4)
    ]
