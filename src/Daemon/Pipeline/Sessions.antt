-- ===== src/Daemon/Pipeline/Sessions.antt =====
-- process1D, refreshWatchSessionTp and process1H of daemon/pipeline.ts.
use combine_trade.Prelude.{
  Bool, false, not, ◌&&◌, List, [], ◌∷◌, Option, none, some, Text, length, if◌then◌else◌, leb,
}
use combine_trade.Prelude.Action.{Action, pure, ◌>>=◌, ◌>>◌, when, when_some}
use combine_trade.Core.Types.{Exchange, Direction, long, short, d1}
use combine_trade.Core.Decimal.{Decimal, eq}
use combine_trade.Daemon.Pipeline.{
  Candle, AllIndicators, BollingerResult, SymbolState, WatchSession, WatchingResult, DetectionType,
  squeeze_breakout, sr_confluence, bb4_touch, OpenWatchSessionParams, bias_change, watching_start,
  PipelineDeps,
}
use combine_trade.Daemon.Pipeline.Parts.{bias_of}

-- slice(0, -1)
abbrev pub all_but_last {ℓ} : {A : Type ℓ} → List A → List A
all_but_last [] = []
all_but_last (x ∷ []) = []
all_but_last (x ∷ y ∷ xs) = x ∷ all_but_last (y ∷ xs)

module _ {D : Type 0} where
  abbrev pub band_ahead : Direction → BollingerResult D → D
  band_ahead long bands = bands.upper
  band_ahead short bands = bands.lower

  -- The targets that the bands give; none where the session keeps its own.
  unfoldable pub new_targets :
      DetectionType → Direction → Option D → BollingerResult D → D → Option (D × D)
  new_targets squeeze_breakout direction none bands sma20 = none
  new_targets squeeze_breakout direction (some tp2) bands sma20 =
      some (band_ahead direction bands, tp2)
  new_targets bb4_touch direction tp2 bands sma20 = some (sma20, band_ahead direction bands)
  new_targets sr_confluence direction tp2 bands sma20 = none

  unfoldable pub open_params :
      Candle D → Text → Exchange → WatchingResult D → OpenWatchSessionParams D
  open_params candle symbol exchange found = record {
    symbol = symbol;
    exchange = exchange;
    detection_type = found.detection_type;
    direction = found.direction;
    tp1_price = found.tp1_price;
    tp2_price = found.tp2_price;
    detected_at = candle.open_time;
  }

module _ {D : Type 0} ⦃dec : Decimal D⦄ where
  abbrev pub is_unchanged : Option D → D → Bool
  is_unchanged none new = false
  is_unchanged (some old) new = eq new old

module _ {D N A X : Type 0} (deps : PipelineDeps D N A X) (symbol : Text)
    (exchange : Exchange) where
  open deps use {
    get_candles, calc_all_indicators, get_symbol_state, determine_daily_bias, update_daily_bias,
    detect_watching, get_active_watch_session, open_watch_session, invalidate_watch_session,
    check_invalidation, update_watch_session_tp, insert_event,
  }

  -- Yesterday's average, where there are two candles.
  unfoldable pub sma20_before : List (Candle D) → Option D
  sma20_before candles =
      if leb 2 (length candles) then (calc_all_indicators (all_but_last candles)).sma20 else none

  unfoldable pub process_1d : Candle D → AllIndicators D N → Action X (Unit {0})
  unfolding sma20_before
  process_1d candle indicators = when_some indicators.sma20 (λ today. do
    prior ← get_candles symbol exchange d1 2
    when_some (sma20_before prior) (λ yesterday. do
      update_daily_bias symbol exchange
          (determine_daily_bias candle.close candle.open_price today yesterday) candle.open_price
      insert_event (
          bias_change symbol exchange
            (determine_daily_bias candle.close candle.open_price today yesterday) candle.close
            candle.open_price)))

  -- A session is opened where there is a bias and the candle starts one.
  unfoldable pub detect :
      Candle D → AllIndicators D N → Option (SymbolState D) → Action X (Unit {0})
  unfolding open_params
  detect candle indicators none = pure tt
  detect candle indicators (some state) = when_some state.daily_bias (λ bias.
      when_some (detect_watching candle indicators bias (some state.daily_open)) (λ found. do
        session ← open_watch_session (open_params candle symbol exchange found)
        insert_event
            (watching_start symbol exchange session.id found.detection_type found.direction)))

module _ {D N A X : Type 0} ⦃dec : Decimal D⦄ (deps : PipelineDeps D N A X) where
  open deps use {
    get_symbol_state, get_active_watch_session, invalidate_watch_session, check_invalidation,
    update_watch_session_tp,
  }

  -- A write only where a target has changed.
  unfoldable pub write_targets : WatchSession D → D × D → Action X (Unit {0})
  write_targets session (tp1, tp2) =
      when (not (is_unchanged session.tp1_price tp1 && is_unchanged session.tp2_price tp2))
        (update_watch_session_tp session.id tp1 tp2)

  unfoldable pub refresh_watch_session_tp : AllIndicators D N → WatchSession D → Action X (Unit {0})
  unfolding write_targets new_targets
  refresh_watch_session_tp indicators session = when_some indicators.bb20 (λ bands.
      when_some indicators.sma20 (λ sma20.
        when_some
          (new_targets session.detection_type session.direction session.tp2_price bands sma20)
          (write_targets session)))

  -- An active session is invalidated, or its targets follow the bands.
  unfoldable pub keep_session :
      Candle D → AllIndicators D N → WatchSession D → Option Text → Action X (Unit {0})
  unfolding refresh_watch_session_tp
  keep_session candle indicators session (some reason) = invalidate_watch_session session.id reason
  keep_session candle indicators session none = refresh_watch_session_tp indicators session

  unfoldable pub by_session :
      Text
      → Exchange
      → Candle D
      → AllIndicators D N
      → Option (SymbolState D)
      → Option (WatchSession D)
      → Action X (Unit {0})
  unfolding keep_session detect
  by_session symbol exchange candle indicators state (some session) =
      keep_session candle indicators session
        (check_invalidation candle indicators session (bias_of state))
  by_session symbol exchange candle indicators state none =
      detect deps symbol exchange candle indicators state

  unfoldable pub process_1h : Candle D → AllIndicators D N → Text → Exchange → Action X (Unit {0})
  unfolding by_session
  process_1h candle indicators symbol exchange = do
    state ← get_symbol_state symbol exchange
    active ← get_active_watch_session symbol exchange
    by_session symbol exchange candle indicators state active
