-- ===== src/Positions/Sizer.antt =====
-- positions/sizer.ts. A result of null is `none`; an exception is an error.
pub mod Accepted
use combine_trade.Prelude.{
  ℕ, Bool, true, false, not, ◌&&◌, Option, none, some, Text, Result, ok, err, ◌>>=◌, if◌then◌else◌,
  leb,
}
use combine_trade.Core.Types.{
  Direction, long, short, Error, negative_risk_pct, zero_sl_distance, invalid_sl,
}
use combine_trade.Core.Decimal.{
  Decimal, nought, lit, add, sub, mul, div, abs, gt, lt, lte, is_zero, is_positive,
}

abbrev pub hard_cap_leverage : ℕ
hard_cap_leverage = 38

pub record ExchangeSymbolInfo (D : Type 0) : Type 0 where
  pub symbol : Text
  pub tick_size : D
  pub min_order_size : D
  pub max_leverage : ℕ
  pub contract_size : D

pub record SizeParams (D : Type 0) : Type 0 where
  pub balance : D
  pub entry_price : D
  pub sl_price : D
  pub direction : Direction
  pub exchange_info : ExchangeSymbolInfo D
  pub risk_pct : D

pub record SizeResult (D : Type 0) : Type 0 where
  pub size : D
  pub leverage : ℕ
  pub risk_amount : D
  pub max_loss : D
  pub adjusted_for_lev_cap : Bool

abbrev pub min_leverage : ℕ → ℕ → ℕ
min_leverage x y = if leb x y then x else y

module _ {D : Type 0} ⦃dec : Decimal D⦄ where
  abbrev pub tier_low_balance : D
  tier_low_balance = lit 300_000 0

  abbrev pub tier_high_balance : D
  tier_high_balance = lit 30_000_000 0

  abbrev pub tier_low_risk : D
  tier_low_risk = lit 3 2

  abbrev pub tier_high_risk : D
  tier_high_risk = lit 1 2

  unfoldable pub get_risk_pct : D → Result Error D
  get_risk_pct balance =
      if lte balance tier_low_balance
      then ok tier_low_risk
      else if not (lt balance tier_high_balance)
      then ok tier_high_risk
      else (do
        ratio ← div (sub tier_high_balance balance) (sub tier_high_balance tier_low_balance)
        ok (add tier_high_risk (mul (sub tier_low_risk tier_high_risk) ratio)))

  unfoldable pub round_down_to_tick : D → D → D
  round_down_to_tick size tick_size =
      dec.times (dec.floor (dec.divided_by size tick_size)) tick_size

  abbrev pub sl_distance : SizeParams D → D
  sl_distance p = abs (sub p.entry_price p.sl_price)

  abbrev pub risk_amount : SizeParams D → D
  risk_amount p = mul p.balance p.risk_pct

  abbrev pub effective_max_lev : SizeParams D → D
  effective_max_lev p = lit (min_leverage hard_cap_leverage p.exchange_info.max_leverage) 0

  -- The stop is not on the side of the entry where it stops a loss.
  abbrev pub wrong_side : SizeParams D → Bool
  wrong_side p = elim p.direction [
    | long ↦ not (gt p.entry_price p.sl_price)
    | short ↦ not (lt p.entry_price p.sl_price)
  ]

  -- The size before rounding, and whether it was cut to the cap.
  unfoldable pub capped_size : SizeParams D → D → D → Result Error (D × Bool)
  capped_size p raw_size raw_leverage =
      if gt raw_leverage (effective_max_lev p)
      then (do size ← div (mul p.balance (effective_max_lev p)) p.entry_price; ok (size, true))
      else ok (raw_size, false)

  unfoldable pub finish_size : SizeParams D → D × Bool → Result Error (Option (SizeResult D))
  unfolding round_down_to_tick
  finish_size p (unrounded, adjusted) =
      let size = round_down_to_tick unrounded p.exchange_info.tick_size in
      if lt size p.exchange_info.min_order_size then ok none else (do
        actual_leverage ← div (mul size p.entry_price) p.balance
        ok (
            some (record {
              size = size;
              leverage = dec.ceil_number actual_leverage;
              risk_amount = risk_amount p;
              max_loss = mul size (sl_distance p);
              adjusted_for_lev_cap = adjusted;
            })))

  -- The core calculation, for inputs that have passed the tests.
  unfoldable pub size_position : SizeParams D → Result Error (Option (SizeResult D))
  unfolding capped_size finish_size
  size_position p = do
    raw_size ← div (risk_amount p) (sl_distance p)
    raw_leverage ← div (mul raw_size p.entry_price) p.balance
    capped ← capped_size p raw_size raw_leverage
    finish_size p capped

  unfoldable pub calculate_size : SizeParams D → Result Error (Option (SizeResult D))
  unfolding size_position
  calculate_size p =
      if lt p.risk_pct nought
      then err negative_risk_pct
      else if is_zero p.risk_pct
      then ok none
      else if not (is_positive p.balance)
      then ok none
      else if is_zero (sl_distance p)
      then err zero_sl_distance
      else if wrong_side p
      then err (invalid_sl p.direction)
      else size_position p
