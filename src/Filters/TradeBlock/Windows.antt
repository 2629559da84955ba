-- ===== src/Filters/TradeBlock/Windows.antt =====
-- The windows, against distances on the circle of the day.
use combine_trade.Prelude.{ℕ, ◌+◌, ◌-◌, ◌*◌, ◌%◌, ◌≤◌, ◌<◌, true, ◌≡◌, ◌↔◌, arith}
use combine_trade.Filters.TradeBlock.{
  MarketOpenRule, is_in_market_open_window, is_in_funding_window_of,
}

-- A market window holds exactly the minutes that lie less than its duration after its start, midnight
-- included, for a start within the day and a duration of at most a day.
pub is_in_market_open_window_iff :
    (rule : MarketOpenRule) (minutes : ℕ)
    → rule.start_minutes < 1_440
    → rule.duration_min ≤ 1_440
    → minutes < 1_440
    → (is_in_market_open_window rule minutes ≡ true)
      ↔ ((minutes + 1_440 - rule.start_minutes) % 1_440 < rule.duration_min)
unfolding is_in_market_open_window
is_in_market_open_window_iff rule minutes h k l = ground arith

-- A funding window holds exactly the minutes that lie within half its duration of the hour, on the
-- circle of the day, the start included and the end not.
pub is_in_funding_window_of_iff :
    (duration hour minutes : ℕ)
    → hour < 24
    → duration ≤ 1_440
    → minutes < 1_440
    → (is_in_funding_window_of duration hour minutes ≡ true)
      ↔ ((2 * minutes + duration + 2_880 - 120 * hour) % 2_880 < 2 * duration)
unfolding is_in_funding_window_of
is_in_funding_window_of_iff duration hour minutes h k l = ground arith
