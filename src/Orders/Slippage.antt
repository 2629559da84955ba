-- ===== src/Orders/Slippage.antt =====
-- The two tests of orders/slippage.ts. Each divides, and throws on a zero divisor.
use combine_trade.Prelude.{Bool, Result, ok, ◌>>=◌}
use combine_trade.Core.Types.{Error}
use combine_trade.Core.Decimal.{Decimal, lit, add, sub, div, abs, lte}

pub record SpreadCheckResult (D : Type 0) : Type 0 where
  pub passed : Bool
  pub spread_pct : D

pub record SlippageResult (D : Type 0) : Type 0 where
  pub passed : Bool
  pub slippage : D
  pub slippage_pct : D
  pub expected_price : D
  pub filled_price : D

module _ {D : Type 0} ⦃dec : Decimal D⦄ where
  unfoldable pub check_slippage : D → D → D → Result Error (SlippageResult D)
  check_slippage expected_price filled_price max_spread_pct = do
    slippage_pct ← div (abs (sub filled_price expected_price)) expected_price
    ok (record {
      passed = lte slippage_pct max_spread_pct;
      slippage = sub filled_price expected_price;
      slippage_pct = slippage_pct;
      expected_price = expected_price;
      filled_price = filled_price;
    })

  unfoldable pub check_spread : D → D → D → Result Error (SpreadCheckResult D)
  check_spread bid ask max_spread_pct = do
    mid ← div (add ask bid) (lit 2 0)
    spread_pct ← div (sub ask bid) mid
    ok (record { passed = lte spread_pct max_spread_pct; spread_pct = spread_pct })
