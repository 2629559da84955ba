-- ===== src/Tests/Sizer.antt =====
-- A long position sized for one percent of the balance.
use combine_trade.Prelude.{false, codes, ◌≡◌, refl}
use combine_trade.Prelude.Int.{ℤ, pos}
use combine_trade.Core.Types.{long}
use combine_trade.Core.Decimal.{◌≼◌, nought, lte, mul}
use combine_trade.Core.Fixed.{fixed, fixed-IsOrdered}
use combine_trade.Positions.Sizer.{SizeParams, SizeResult, sl_distance, calculate_size}
use combine_trade.Positions.Sizer.Accepted.{StopsLoss, NeedsCap, calculate_size-Accepted}

abbrev params : SizeParams ℤ
params = record {
  balance = pos 1_000_000;
  entry_price = pos 1_000_000;
  sl_price = pos 900_000;
  direction = long;
  exchange_info = record {
    symbol = codes "BTCUSDT";
    tick_size = pos 10;
    min_order_size = pos 100;
    max_leverage = 50;
    contract_size = pos 10_000;
  };
  risk_pct = pos 100;
}

abbrev sized : SizeResult ℤ
sized = record {
  size = pos 1_000;
  leverage = 1;
  risk_amount = pos 10_000;
  max_loss = pos 10_000;
  adjusted_for_lev_cap = false;
}

calculate_size-Accepted_example :
    (lte params.risk_pct nought ≡ false)
    × (lte params.balance nought ≡ false)
    × StopsLoss long params.entry_price params.sl_price
    × (params.exchange_info.min_order_size ≼ sized.size)
    × (sized.max_loss ≡ mul sized.size (sl_distance params))
    × (sized.risk_amount ≡ mul params.balance params.risk_pct)
    × NeedsCap params sized.adjusted_for_lev_cap
unfolding calculate_size fixed
calculate_size-Accepted_example = calculate_size-Accepted fixed-IsOrdered params sized refl
