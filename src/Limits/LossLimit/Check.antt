-- ===== src/Limits/LossLimit/Check.antt =====
-- When the limits allow an entry.
use combine_trade.Prelude.{◌≤◌, ◌<◌, true, false, IsIn, ◌≡◌, ◌↔◌, arith}
use combine_trade.Core.Decimal.{Decimal, IsOrdered, ◌≼◌, mul, lte}
use combine_trade.Limits.LossLimit.{
  LossViolation, daily, session, hourly_5m, hourly_1m, SymbolLossState, LossLimitConfig,
  check_loss_limit,
}

module _ {D : Type 0} ⦃dec : Decimal D⦄ where
  -- The limit that each violation names has been reached.
  abbrev pub Reached : LossViolation → SymbolLossState D → D → LossLimitConfig D → Type 0
  Reached daily s balance c = mul balance c.max_daily_loss_pct ≼ s.losses_today
  Reached session s balance c = c.max_session_losses ≤ s.losses_session
  Reached hourly_5m s balance c = c.max_hourly_5m ≤ s.losses_this_hour_5m
  Reached hourly_1m s balance c = c.max_hourly_1m ≤ s.losses_this_hour_1m

  module _ (order : IsOrdered D) where
    open order use {gte-eq}

    -- A violation is reported exactly when its limit has been reached.
    pub violations-Reached :
        (s : SymbolLossState D) (balance : D) (c : LossLimitConfig D) (v : LossViolation)
        → IsIn v (check_loss_limit s balance c).violations ↔ Reached v s balance c
    unfolding check_loss_limit
    violations-Reached s balance c daily =
        ground (arith, gte-eq s.losses_today (mul balance c.max_daily_loss_pct))
    violations-Reached s balance c session = ground arith
    violations-Reached s balance c hourly_5m = ground arith
    violations-Reached s balance c hourly_1m = ground arith

    -- An entry is allowed exactly when the day's loss is strictly below its share of the balance and
    -- every count strictly below its maximum.
    pub allowed_iff :
        (s : SymbolLossState D) (balance : D) (c : LossLimitConfig D)
        → ((check_loss_limit s balance c).allowed ≡ true) ↔ (
            (lte (mul balance c.max_daily_loss_pct) s.losses_today ≡ false)
            × (s.losses_session < c.max_session_losses)
            × (s.losses_this_hour_5m < c.max_hourly_5m)
            × (s.losses_this_hour_1m < c.max_hourly_1m))
    unfolding check_loss_limit
    allowed_iff s balance c =
        ground (arith, gte-eq s.losses_today (mul balance c.max_daily_loss_pct))
