-- ===== src/Filters/DailyDirection.antt =====
-- filters/daily-direction.ts.
use combine_trade.Prelude.{
  true, not, ◌&&◌, ◌||◌, List, some, Text, ℕ, update_where, if◌then◌else◌, ◌≡◌, ◌↔◌, arith,
}
use combine_trade.Core.Types.{Exchange, DailyBias, long_only, short_only, neutral}
use combine_trade.Core.Decimal.{Decimal, IsOrdered, ◌≼◌, sub, gt, lt, is_zero, is_negative}
use combine_trade.Positions.Tickets.{SymbolStateRow, row_at}

module _ {D : Type 0} where
  -- UPDATE symbol_state …: the rows of the market.
  unfoldable pub update_daily_bias :
      List (SymbolStateRow D) → Text → Exchange → DailyBias → D → ℕ → List (SymbolStateRow D)
  update_daily_bias rows symbol exchange bias daily_open now =
      update_where (row_at symbol exchange)
        (λ r. record r { daily_bias = some bias; daily_open = some daily_open; updated_at = now })
        rows

-- The sign of a difference: the difference of equal values is +0, and the sign bit is one or the other.
pub record HasSigns (D : Type 0) ⦃dec : Decimal D⦄ : Type 0 where
  pub positive_iff : (x y : D) → (dec.sign_positive (sub x y) ≡ true) ↔ (y ≼ x)
  pub negative-eq : (x y : D) → is_negative (sub x y) ≡ not (dec.sign_positive (sub x y))
  pub zero_iff : (x y : D) → (is_zero (sub x y) ≡ true) ↔ ((x ≼ y) × (y ≼ x))

module _ {D : Type 0} ⦃dec : Decimal D⦄ where
  unfoldable pub determine_daily_bias : D → D → D → D → DailyBias
  determine_daily_bias today_close daily_open ma20_today ma20_yesterday =
      let slope = sub ma20_today ma20_yesterday in
      if dec.sign_positive slope && gt today_close daily_open
      then long_only
      else if (is_negative slope || is_zero slope) && lt today_close daily_open
      then short_only
      else neutral

  -- The bias is LONG_ONLY exactly when the average does not fall and the close is above the open, and
  -- SHORT_ONLY exactly when it does not rise and the close is below the open.
  pub determine_daily_bias_iff :
      (order : IsOrdered D) (signs : HasSigns D) (close open_price today yesterday : D)
      → ((determine_daily_bias close open_price today yesterday ≡ long_only)
          ↔ ((yesterday ≼ today) × (gt close open_price ≡ true)))
        × ((determine_daily_bias close open_price today yesterday ≡ short_only)
            ↔ ((today ≼ yesterday) × (lt close open_price ≡ true)))
  unfolding determine_daily_bias
  determine_daily_bias_iff order signs close open_price today yesterday =
      let (p, q) = signs.positive_iff today yesterday in
      let (z, w) = signs.zero_iff today yesterday in
      ground (
        arith,
        p,
        q,
        z,
        w,
        signs.negative-eq today yesterday,
        order.le_total today yesterday,
        order.gt-eq close open_price,
        order.lt-eq close open_price,
        order.le_total close open_price,
      )
