-- ===== src/Tests/Signals.antt =====
-- A candle at the bands of a market, and the sessions that watch it.
use combine_trade.Prelude.{
  ℕ, true, false, [], ◌∷◌, none, some, codes, ◌≡◌, ◌⊎◌, refl, arith, filter,
}
use combine_trade.Prelude.Int.{ℤ, pos}
use combine_trade.Core.Types.{
  FsmState, has_position, watching, binance, long, short, Timeframe, long_only,
}
use combine_trade.Core.Decimal.{lt, is_zero}
use combine_trade.Core.Fixed.{fixed, fixed-IsOrdered}
use combine_trade.Daemon.Pipeline.{
  Candle, BollingerResult, AllIndicators, expansion, WatchSession, OpenWatchSessionParams,
  bb4_touch, SafetySymbolState,
}
use combine_trade.Positions.Tickets.{SymbolStateRow, live}
use combine_trade.Signals.Safety.{check_safety, is_trend_following, range_of, wick_of}
use combine_trade.Signals.Permissive.{check_safety-m1}
use combine_trade.Signals.Watching.{detect_squeeze_breakout}
use combine_trade.Signals.Breakout.{IsHitAt, detect_squeeze_breakout-IsHitAt}
use combine_trade.Signals.Sessions.{
  WatchDb, open_watch_session, invalidate_watch_session, get_active_watch_session,
}
use combine_trade.Signals.Single.{
  held, open_watch_session-held, IsSingle, open_watch_session-IsSingle,
  get_active_watch_session-open_watch_session,
}

abbrev candle_of : ℤ → ℤ → ℤ → ℤ → Candle ℤ
candle_of open_price high low close = record {
  id = codes "candle";
  symbol = codes "BTCUSDT";
  exchange = binance;
  timeframe = Timeframe.m1;
  open_time = 1_000;
  open_price = open_price;
  high = high;
  low = low;
  close = close;
  volume = pos 10_000;
  is_closed = true;
}

abbrev bands : BollingerResult ℤ
bands = record {
  upper = pos 1_100_000;
  middle = pos 1_000_000;
  lower = pos 900_000;
  bandwidth = pos 2_000;
  percent_b = pos 5_000;
}

abbrev indicators : AllIndicators ℤ ℕ
indicators = record {
  bb20 = some bands;
  bb4 = some bands;
  bb4_1h = some bands;
  sma20 = some (pos 1_000_000);
  prev_sma20 = none;
  sma20_5m = none;
  sma20_history = [];
  sma60 = none;
  sma120 = none;
  ema20 = none;
  ema60 = none;
  ema120 = none;
  rsi14 = none;
  rsi_history = [];
  atr14 = none;
  squeeze = expansion;
  bandwidth_history = [];
}

abbrev session : WatchSession ℤ
session = record {
  id = codes "session";
  symbol = codes "BTCUSDT";
  exchange = binance;
  detection_type = bb4_touch;
  direction = long;
  tp1_price = none;
  tp2_price = none;
  detected_at = 500;
}

-- A hammer at the lower band.
abbrev hammer : Candle ℤ
hammer = candle_of (pos 940_000) (pos 960_000) (pos 880_000) (pos 950_000)

-- A candle whose open and close are its high.
abbrev dragonfly : Candle ℤ
dragonfly = candle_of (pos 880_000) (pos 880_000) (pos 850_000) (pos 880_000)

abbrev state : SafetySymbolState ℤ
state = record { session_box_high = none; session_box_low = none; daily_bias = none }

check_safety-m1_example :
    (is_trend_following long none ≡ true)
    ⊎ ((is_zero (range_of dragonfly) ≡ true)
        ⊎ (lt (wick_of dragonfly long) (range_of dragonfly) ≡ false))
unfolding check_safety fixed
check_safety-m1_example =
    check_safety-m1 dragonfly indicators long state [] (λ h. ground arith) refl

-- A close above the upper band.
abbrev rise : Candle ℤ
rise = candle_of (pos 1_050_000) (pos 1_160_000) (pos 1_040_000) (pos 1_150_000)

detect_squeeze_breakout-IsHitAt_example :
    IsHitAt (pos 1_150_000) (detect_squeeze_breakout rise indicators long_only)
unfolding fixed
detect_squeeze_breakout-IsHitAt_example =
    detect_squeeze_breakout-IsHitAt fixed-IsOrdered rise indicators long_only bands (pos 1_000_000)
      refl refl refl refl

abbrev row : FsmState → SymbolStateRow ℤ
row state = record {
  id = codes "row";
  symbol = codes "BTCUSDT";
  exchange = binance;
  fsm_state = state;
  execution_mode = live;
  daily_bias = none;
  daily_open = none;
  session_box_high = none;
  session_box_low = none;
  losses_today = none;
  losses_session = none;
  losses_this_1h_5m = none;
  losses_this_1h_1m = none;
  updated_at = 100;
}

abbrev watched : WatchDb ℤ
watched = record {
  sessions = record { session = session; invalidated_at = none; invalidation_reason = none } ∷ [];
  symbol_states = row has_position ∷ row watching ∷ [];
}

watched-IsSingle : IsSingle watched.sessions
watched-IsSingle s e = ground arith

abbrev params : OpenWatchSessionParams ℤ
params = record {
  symbol = codes "BTCUSDT";
  exchange = binance;
  detection_type = bb4_touch;
  direction = short;
  tp1_price = pos 1_000_000;
  tp2_price = pos 900_000;
  detected_at = 900;
}

open_watch_session-IsSingle_example :
    IsSingle (open_watch_session watched params (codes "new") 1_000).1.sessions
open_watch_session-IsSingle_example =
    open_watch_session-IsSingle watched params (codes "new") 1_000 watched-IsSingle

get_active_watch_session-open_watch_session_example :
    get_active_watch_session
      (open_watch_session watched params (codes "new") 1_000).1
      (codes "BTCUSDT")
      binance
    ≡ some (open_watch_session watched params (codes "new") 1_000).0
get_active_watch_session-open_watch_session_example =
    get_active_watch_session-open_watch_session watched params (codes "new") 1_000

open_watch_session-held_example :
    filter held
      (invalidate_watch_session
        (open_watch_session watched params (codes "new") 1_000).1
        (codes "new")
        (codes "price_breakout")
        2_000).symbol_states
    ≡ filter held watched.symbol_states
open_watch_session-held_example =
    open_watch_session-held watched params (codes "new") (codes "new") (codes "price_breakout")
      1_000 2_000
