-- ===== src/Transfers/Balance/Safety.antt =====
-- When a transfer is made, and what it leaves.
use combine_trade.Prelude.{false, ◌≡◌, ◌↔◌, arith}
use combine_trade.Core.Decimal.{Decimal, IsOrdered, ◌≼◌, nought, lit, add, sub, lte, mul}
use combine_trade.Transfers.Balance.{
  TransferableParams, calculate_transferable, amount_of, reserve_of,
}

module _ {D : Type 0} ⦃dec : Decimal D⦄ (order : IsOrdered D) where
  open order use {lt-eq, le-max_right}

  -- A transfer is made exactly when the day made a profit, the amount is at least the smallest transfer,
  -- and what it leaves in the wallet covers the open margin and the reserve; the reserve is at least 50.
  pub calculate_transferable_iff :
      (p : TransferableParams D)
      → let r = calculate_transferable p in
        ((r.skip ≡ false) ↔ (
          (lte p.daily_profit nought ≡ false)
          × (p.min_transfer_usdt ≼ r.transfer_amount)
          × (add p.open_margin r.reserve ≼ sub p.wallet_balance r.transfer_amount)))
        × (lit 50 0 ≼ r.reserve)
  unfolding calculate_transferable reserve_of
  calculate_transferable_iff p = ground (
    arith,
    lt-eq (amount_of p) p.min_transfer_usdt,
    lt-eq (sub p.wallet_balance (amount_of p)) (add p.open_margin (reserve_of p)),
    le-max_right (mul (mul p.wallet_balance p.risk_pct) p.reserve_multiplier) (lit 50 0),
  )
