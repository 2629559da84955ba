-- ===== src/Transfers/Balance.antt =====
-- transfer/balance.ts. The numbers of the configuration that the code turns into decimals are decimals;
-- the reason to skip is data in place of its text.
pub mod Safety
use combine_trade.Prelude.{Bool, true, false, Option, none, some, if◌then◌else◌}
use combine_trade.Core.Decimal.{Decimal, nought, lit, add, sub, mul, max, lt, lte}

pub data SkipReason : Type 0 where
  no_daily_profit below_min_transfer_usdt safety_check : SkipReason

pub record TransferableResult (D : Type 0) : Type 0 where
  pub wallet_balance : D
  pub open_margin : D
  pub daily_profit : D
  pub reserve : D
  pub transfer_amount : D
  pub skip : Bool
  pub skip_reason : Option SkipReason

pub record TransferableParams (D : Type 0) : Type 0 where
  pub wallet_balance : D
  pub open_margin : D
  pub daily_profit : D
  pub risk_pct : D
  pub reserve_multiplier : D
  pub transfer_pct : D
  pub min_transfer_usdt : D

module _ {D : Type 0} ⦃dec : Decimal D⦄ where
  abbrev pub reserve_floor : D
  reserve_floor = lit 50 0

  unfoldable pub reserve_of : TransferableParams D → D
  reserve_of p = max (mul (mul p.wallet_balance p.risk_pct) p.reserve_multiplier) reserve_floor

  -- A share of the day's profit, cut to two places.
  unfoldable pub amount_of : TransferableParams D → D
  amount_of p = dec.round_down 2 (dec.divided_by (mul p.daily_profit p.transfer_pct) (lit 100 0))

  abbrev pub transferable :
      TransferableParams D → D → Bool → Option SkipReason → TransferableResult D
  transferable p amount skip reason = record {
    wallet_balance = p.wallet_balance;
    open_margin = p.open_margin;
    daily_profit = p.daily_profit;
    reserve = reserve_of p;
    transfer_amount = amount;
    skip = skip;
    skip_reason = reason;
  }

  unfoldable pub calculate_transferable : TransferableParams D → TransferableResult D
  calculate_transferable p =
      if lte p.daily_profit nought
      then transferable p nought true (some no_daily_profit)
      else if lt (amount_of p) p.min_transfer_usdt
      then transferable p (amount_of p) true (some below_min_transfer_usdt)
      else if lt (sub p.wallet_balance (amount_of p)) (add p.open_margin (reserve_of p))
      then transferable p (amount_of p) true (some safety_check)
      else transferable p (amount_of p) false none
