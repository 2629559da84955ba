-- ===== src/Tests/Transfers.antt =====
-- A transfer of half of the day's profit.
use combine_trade.Prelude.{false, ◌≡◌, ◌↔◌}
use combine_trade.Prelude.Int.{ℤ, pos}
use combine_trade.Core.Decimal.{◌≼◌, nought, lit, lte, add, sub}
use combine_trade.Core.Fixed.{fixed, fixed-IsOrdered}
use combine_trade.Transfers.Balance.{TransferableParams, calculate_transferable}
use combine_trade.Transfers.Balance.Safety.{calculate_transferable_iff}

abbrev params : TransferableParams ℤ
params = record {
  wallet_balance = pos 10_000_000;
  open_margin = pos 1_000_000;
  daily_profit = pos 2_000_000;
  risk_pct = pos 300;
  reserve_multiplier = pos 100_000;
  transfer_pct = pos 500_000;
  min_transfer_usdt = pos 100_000;
}

calculate_transferable_iff_example :
    let r = calculate_transferable params in
    ((r.skip ≡ false) ↔ (
      (lte params.daily_profit nought ≡ false)
      × (params.min_transfer_usdt ≼ r.transfer_amount)
      × (add params.open_margin r.reserve ≼ sub params.wallet_balance r.transfer_amount)))
    × (lit 50 0 ≼ r.reserve)
calculate_transferable_iff_example = calculate_transferable_iff fixed-IsOrdered params
