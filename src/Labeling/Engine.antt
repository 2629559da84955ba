-- ===== src/Labeling/Engine.antt =====
-- classifyResult and classifyGrade of labeling/engine.ts. A close reason that is null is `none`.
use combine_trade.Prelude.{
  Bool, true, false, ◌&&◌, Option, some, if◌then◌else◌, ◌≡◌, ◌≢◌, ◌↔◌, arith,
}
use combine_trade.Core.Types.{
  CloseReason, TradeResult, win, loss, SignalType, double_b, one_b, VectorGrade, a, b, c,
}
use combine_trade.Core.Decimal.{Decimal, IsOrdered, ◌≼◌, nought, lit, gt, gte, lte}

abbrev is_time_exit : Option CloseReason → Bool
is_time_exit (some CloseReason.time_exit) = true
is_time_exit _ = false

module _ {D : Type 0} ⦃dec : Decimal D⦄ where
  unfoldable pub classify_result : D → Option CloseReason → TradeResult
  classify_result pnl close_reason =
      if is_time_exit close_reason
      then TradeResult.time_exit
      else if gt pnl nought
      then win
      else loss

  unfoldable pub classify_grade : SignalType → Bool → D → VectorGrade
  classify_grade one_b safety_passed knn_winrate = c
  classify_grade double_b safety_passed knn_winrate =
      if safety_passed && gte knn_winrate (lit 65 2) then a else b

  module _ (order : IsOrdered D) where
    open order use {gt-eq, gte-eq}

    -- A trade wins exactly when it made a profit and did not time out, and grade A goes exactly to a
    -- safe Double-B signal whose neighbours won at least 65 percent.
    pub classify_lem :
        (pnl : D) (reason : Option CloseReason) (signal_type : SignalType) (safe : Bool)
        (winrate : D)
        → ((classify_result pnl reason ≡ win)
            ↔ ((reason ≢ some CloseReason.time_exit) × (lte pnl nought ≡ false)))
          × ((classify_grade signal_type safe winrate ≡ a)
              ↔ ((signal_type ≡ double_b) × (safe ≡ true) × (lit 65 2 ≼ winrate)))
    unfolding classify_result classify_grade
    classify_lem pnl reason signal_type safe winrate =
        ground (arith, gt-eq pnl nought, gte-eq winrate (lit 65 2))
