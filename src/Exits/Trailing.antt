-- ===== src/Exits/Trailing.antt =====
-- exits/trailing.ts: where the trailing stop stands.
use combine_trade.Prelude.{Bool}
use combine_trade.Core.Types.{Direction, long, short}
use combine_trade.Core.Decimal.{Decimal, nought, lit, add, sub, mul, max, gt, lt}

module _ {D : Type 0} ⦃dec : Decimal D⦄ where
  abbrev pub default_trailing_ratio : D
  default_trailing_ratio = lit 50 2

  unfoldable pub calculate_trailing_sl : D → D → Direction → D → D
  calculate_trailing_sl entry_price max_profit long ratio = add entry_price (mul max_profit ratio)
  calculate_trailing_sl entry_price max_profit short ratio = sub entry_price (mul max_profit ratio)

  unfoldable pub should_update_trailing_sl : D → D → Direction → Bool
  should_update_trailing_sl current_sl new_sl long = gt new_sl current_sl
  should_update_trailing_sl current_sl new_sl short = lt new_sl current_sl

  unfoldable pub calc_max_profit : D → D → Direction → D
  calc_max_profit entry_price current_price long = max nought (sub current_price entry_price)
  calc_max_profit entry_price current_price short = max nought (sub entry_price current_price)
