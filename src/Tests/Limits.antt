-- ===== src/Tests/Limits.antt =====
-- A symbol that loses, and its resets.
use combine_trade.Prelude.{
  ℕ, map, update_where, ◌/◌, ◌%◌, ◌<◌, true, false, List, [], ◌∷◌, none, some, codes, IsIn, ◌≡◌,
  ◌↔◌, refl, arith,
}
use combine_trade.Prelude.Int.{ℤ, pos}
use combine_trade.Core.Types.{binance, okx, Exchange}
use combine_trade.Core.Decimal.{mul, lte}
use combine_trade.Core.Fixed.{fixed, fixed-IsOrdered}
use combine_trade.Limits.LossLimit.{
  LossRow, at_key, LossLimitConfig, Calendar, LastResets, Reset, daily_reset, hourly_reset,
  check_loss_limit, default_config, run_resets, reset_all_expired, should_reset_daily,
  should_reset_hourly, pending_resets, due_resets,
}
use combine_trade.Limits.LossLimit.Check.{allowed_iff}
use combine_trade.Limits.LossLimit.Counters.{state_of}
use combine_trade.Limits.LossLimit.Resets.{IsUtc, resets_of, refreshed, reset_all_expired_order}

abbrev row : Exchange → LossRow ℤ
row exchange = record {
  symbol = codes "BTCUSDT";
  exchange = exchange;
  losses_today = none;
  losses_session = some 1;
  losses_this_1h_5m = some 1;
  losses_this_1h_1m = none;
  updated_at = 500;
}

abbrev rows : List (LossRow ℤ)
rows = row binance ∷ row okx ∷ []

abbrev balance : ℤ
balance = pos 1_000_000

allowed_iff_example :
    ((check_loss_limit (state_of (row binance)) balance default_config).allowed ≡ true) ↔ (
      (lte (mul balance (default_config {D = ℤ}).max_daily_loss_pct) (pos 0) ≡ false)
      × (1 < (default_config {D = ℤ}).max_session_losses)
      × (1 < (default_config {D = ℤ}).max_hourly_5m)
      × (0 < (default_config {D = ℤ}).max_hourly_1m))
unfolding fixed
allowed_iff_example = allowed_iff fixed-IsOrdered (state_of (row binance)) balance default_config

abbrev strict : LossLimitConfig ℤ
strict = record {
  max_daily_loss_pct = pos 1_000;
  max_session_losses = 1;
  max_hourly_5m = 2;
  max_hourly_1m = 1;
}

-- A calendar whose days are numbered in one year of one month.
abbrev days : Calendar
days = record {
  full_year = λ t. 1970;
  month = λ t. 0;
  date = λ t. t / 86_400_000;
  hours = λ t. t / 3_600_000 % 24;
}

days-IsUtc : IsUtc days
days-IsUtc = record { same_day = λ s t. ground arith; hour_of_day = λ t. refl }

abbrev last : LastResets
last = record { last_daily_reset = 1_000; last_hourly_reset = 1_000; session_start_time = none }

abbrev writes : List (Reset × ℕ)
writes = (hourly_reset, 90_000_010) ∷ (daily_reset, 90_000_020) ∷ (hourly_reset, 90_000_030) ∷ []

abbrev clock : Reset → ℕ
clock w = 90_000_005

same_resets :
    (w : Reset)
    → IsIn w (resets_of writes) ↔ IsIn w (pending_resets (due_resets days 90_000_000 last))
unfolding pending_resets due_resets should_reset_daily should_reset_hourly
same_resets w = ground arith

reset_all_expired_order_example :
    (run_resets (codes "BTCUSDT") binance writes rows
      ≡ update_where (at_key (codes "BTCUSDT") binance) (refreshed 90_000_000 last writes) rows)
    × ((reset_all_expired days rows (codes "BTCUSDT") binance 90_000_000 last clock).1
        ≡ update_where
            (at_key (codes "BTCUSDT") binance)
            (refreshed 90_000_000 last
              (map (λ w. (w, clock w)) (pending_resets (due_resets days 90_000_000 last))))
            rows)
reset_all_expired_order_example =
    reset_all_expired_order days days-IsUtc 90_000_000 last rows (codes "BTCUSDT") binance clock
      writes same_resets
