-- ===== src/Signals/Stops.antt =====
-- Where the stop of an evidence of signals/evidence-gate.ts lies.
use combine_trade.Prelude.{true, Option, none, some, ◌≡◌, ◌⊎◌}
use combine_trade.Core.Types.{Direction, long, short}
use combine_trade.Core.Decimal.{Decimal, ◌≼◌, nought, lit, add, sub, mul, lt, gt, is_zero}
use combine_trade.Daemon.Pipeline.{Candle, WatchSession, EvidenceResult}
use combine_trade.Signals.Evidence.{tail_length}

module _ {D : Type 0} ⦃dec : Decimal D⦄ where
  -- The prices of a candle are in their order.
  pub record IsCandle (candle : Candle D) : Type 0 where
    pub low-open : candle.low ≼ candle.open_price
    pub low-close : candle.low ≼ candle.close
    pub open-high : candle.open_price ≼ candle.high
    pub close-high : candle.close ≼ candle.high

  -- Adding and taking away what is above zero moves a value, and the share of a length of the candle is
  -- zero only where the length is, as with prices of at most eighteen digits.
  pub record IsExact (candle : Candle D) : Type 0 where
    pub lowers : (x y : D) → gt y nought ≡ true → lt (sub x y) x ≡ true
    pub raises : (x y : D) → gt y nought ≡ true → lt x (add x y) ≡ true
    pub range_share :
        is_zero (mul (sub candle.high candle.low) (lit 15 2)) ≡ true
        → is_zero (sub candle.high candle.low) ≡ true
    pub tail_share :
        (direction : Direction)
        → is_zero (mul (tail_length candle direction) (lit 15 2)) ≡ true
        → is_zero (tail_length candle direction) ≡ true

  -- Beyond the candle, or at the close of a candle without a range.
  abbrev pub Shields : Candle D → Direction → D → Type 0
  Shields candle long stop =
      (lt stop candle.low ≡ true)
      ⊎ ((is_zero (sub candle.high candle.low) ≡ true) × (stop ≡ candle.close))
  Shields candle short stop =
      (lt candle.high stop ≡ true)
      ⊎ ((is_zero (sub candle.high candle.low) ≡ true) × (stop ≡ candle.close))

  abbrev pub IsProtected : Candle D → WatchSession D → Option (EvidenceResult D) → Type 0
  IsProtected candle session none = Unit
  IsProtected candle session (some evidence) =
      (evidence.direction ≡ session.direction)
      × (evidence.entry_price ≡ candle.close)
      × Shields candle evidence.direction evidence.sl_price
