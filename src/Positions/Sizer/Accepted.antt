-- ===== src/Positions/Sizer/Accepted.antt =====
-- What a size that is given satisfies.
use combine_trade.Prelude.{Bool, false, some, ok, >>=-eq-ok, ◌≡◌, sym, ◌∙◌, refl, arith}
use combine_trade.Core.Types.{Direction, long, short}
use combine_trade.Core.Decimal.{Decimal, IsOrdered, ◌≼◌, nought, lte, gt, mul, div}
use combine_trade.Positions.Sizer.{
  SizeParams, SizeResult, sl_distance, risk_amount, effective_max_lev, wrong_side,
  round_down_to_tick, capped_size, finish_size, size_position, calculate_size,
}

module _ {D : Type 0} ⦃dec : Decimal D⦄ where
  -- The stop is strictly on the side of the entry where it stops a loss.
  abbrev pub StopsLoss : Direction → D → D → Type 0
  StopsLoss long entry stop = lte entry stop ≡ false
  StopsLoss short entry stop = lte stop entry ≡ false

  -- Whether the leverage that the whole risk would take is above the cap.
  abbrev pub NeedsCap : SizeParams D → Bool → Type 0
  NeedsCap p adjusted =
      (raw_size : D) × (raw_leverage : D) × (div (risk_amount p) (sl_distance p) ≡ ok raw_size)
      × (div (mul raw_size p.entry_price) p.balance ≡ ok raw_leverage)
      × (gt raw_leverage (effective_max_lev p) ≡ adjusted)

  module _ (order : IsOrdered D) where
    open order use {gt-eq, lt-eq, is_zero-eq, sign_positive_of_nonzero}

    passes :
        (p : SizeParams D) (r : SizeResult D)
        → calculate_size p ≡ ok (some r)
        → (lte p.risk_pct nought ≡ false)
          × (lte p.balance nought ≡ false)
          × (wrong_side p ≡ false)
          × (size_position p ≡ ok (some r))
    unfolding calculate_size
    passes p r h = ground (
      arith,
      lt-eq p.risk_pct nought,
      is_zero-eq p.risk_pct,
      is_zero-eq p.balance,
      sign_positive_of_nonzero p.balance,
    )

    wrong_side-StopsLoss :
        (direction : Direction) (p : SizeParams D)
        → p.direction ≡ direction
        → wrong_side p ≡ false
        → StopsLoss direction p.entry_price p.sl_price
    wrong_side-StopsLoss long p e h = ground (arith, gt-eq p.entry_price p.sl_price)
    wrong_side-StopsLoss short p e h = ground (arith, lt-eq p.entry_price p.sl_price)

    capped_size-flag :
        (p : SizeParams D) (raw_size raw_leverage size : D) (adjusted : Bool)
        → capped_size p raw_size raw_leverage ≡ ok (size, adjusted)
        → gt raw_leverage (effective_max_lev p) ≡ adjusted
    unfolding capped_size
    capped_size-flag p raw_size raw_leverage size adjusted h = ground arith

    finish_size-le :
        (p : SizeParams D) (size : D) (adjusted : Bool) (r : SizeResult D)
        → finish_size p (size, adjusted) ≡ ok (some r)
        → (p.exchange_info.min_order_size ≼ r.size)
          × (r.max_loss ≡ mul r.size (sl_distance p))
          × (r.risk_amount ≡ risk_amount p)
          × (r.adjusted_for_lev_cap ≡ adjusted)
    unfolding finish_size
    finish_size-le p size adjusted r h = ground (
      arith,
      lt-eq (round_down_to_tick size p.exchange_info.tick_size) p.exchange_info.min_order_size,
    )

    -- A size is given only for a positive risk and balance and a stop on the losing side of the entry.
    -- It is at least the smallest order, the loss is that of the size over the distance to the stop, the
    -- risk is its share of the balance, and it is marked as cut exactly when the leverage that the whole
    -- risk would take is above the cap.
    pub calculate_size-Accepted :
        (p : SizeParams D) (r : SizeResult D)
        → calculate_size p ≡ ok (some r)
        → (lte p.risk_pct nought ≡ false)
          × (lte p.balance nought ≡ false)
          × StopsLoss p.direction p.entry_price p.sl_price
          × (p.exchange_info.min_order_size ≼ r.size)
          × (r.max_loss ≡ mul r.size (sl_distance p))
          × (r.risk_amount ≡ mul p.balance p.risk_pct)
          × NeedsCap p r.adjusted_for_lev_cap
    unfolding size_position
    calculate_size-Accepted p r h =
        let (risk, balance, side, sized) = passes p r h in
        let (raw_size, e, h1) = >>=-eq-ok (div (risk_amount p) (sl_distance p)) _ sized in
        let (raw_leverage, e', h2) = >>=-eq-ok (div (mul raw_size p.entry_price) p.balance) _ h1 in
        let (capped, flag, h3) = >>=-eq-ok (capped_size p raw_size raw_leverage) _ h2 in
        let (least, lost, risked, same) = finish_size-le p capped.0 capped.1 r h3 in
        (
          risk,
          balance,
          wrong_side-StopsLoss p.direction p refl side,
          least,
          lost,
          risked,
          (
            raw_size,
            raw_leverage,
            e,
            e',
            capped_size-flag p raw_size raw_leverage capped.0 capped.1 flag ∙ sym same,
          ),
        )
