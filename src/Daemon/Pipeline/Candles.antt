-- ===== src/Daemon/Pipeline/Candles.antt =====
-- handleCandleClose and processSymbol of daemon/pipeline.ts, and the priority of 1M candles.
use combine_trade.Prelude.{
  ℕ, ◌+◌, Bool, false, not, ◌&&◌, List, [], ◌∷◌, Option, none, some, Text, eq_text, filter, ltb,
}
use combine_trade.Prelude.Action.{Action, pure, ◌>>=◌, ◌>>◌, attempt, when, when_some}
use combine_trade.Core.Types.{Exchange, eq_exchange, Timeframe, d1, h1, VectorTimeframe}
use combine_trade.Core.Decimal.{Decimal}
use combine_trade.Daemon.Pipeline.{Candle, AllIndicators, ActiveSymbol, PipelineDeps, Running}
use combine_trade.Daemon.Pipeline.Parts.{call, symbol_key, get_key, set_key}
use combine_trade.Daemon.Pipeline.Entry.{process_entry}
use combine_trade.Daemon.Pipeline.Exits.{process_exits}
use combine_trade.Daemon.Pipeline.Sessions.{process_1d, process_1h}

abbrev pub recent_1m_ttl_ms : ℕ
recent_1m_ttl_ms = 60_000

-- `now - ts < ttl`, also where the clock went back.
unfoldable pub fired_within : Option ℕ → ℕ → Bool
fired_within none now = false
fired_within (some ts) now = ltb now (ts + recent_1m_ttl_ms)

module _ {X : Type 0} where
  unfoldable pub mark_1m_fired : Text → Exchange → ℕ → Action (Running X) (Unit {0})
  unfolding symbol_key
  mark_1m_fired symbol exchange now = λ r.
      pure tt
        (record r { recent_1m_fired = set_key (symbol_key symbol exchange) now r.recent_1m_fired })

  unfoldable pub was_1m_fired_recently : Text → Exchange → ℕ → Action (Running X) Bool
  unfolding symbol_key fired_within
  was_1m_fired_recently symbol exchange now =
      λ r. pure (fired_within (get_key (symbol_key symbol exchange) r.recent_1m_fired) now) r

module _ {D N A X : Type 0} ⦃dec : Decimal D⦄ (deps : PipelineDeps D N A X) where
  open deps use {now, get_candles, calc_all_indicators, get_active_ticket, reset_expired_losses}

  -- The part of processSymbol that depends on the timeframe.
  unfoldable pub process_timeframe :
      Candle D
      → Timeframe
      → AllIndicators D N
      → List (Candle D)
      → ActiveSymbol
      → Action (Running X) (Unit {0})
  unfolding call process_entry process_1d process_1h mark_1m_fired was_1m_fired_recently
  process_timeframe candle d1 indicators candles sym =
      call (process_1d deps sym.symbol sym.exchange candle indicators)
  process_timeframe candle h1 indicators candles sym =
      call (process_1h deps candle indicators sym.symbol sym.exchange)
  process_timeframe candle Timeframe.m5 indicators candles sym = do
    at ← call now
    fired ← was_1m_fired_recently sym.symbol sym.exchange at
    when (not fired) (process_entry deps sym VectorTimeframe.m5 candle candles indicators)
  process_timeframe candle Timeframe.m1 indicators candles sym = do
    at ← call now
    mark_1m_fired sym.symbol sym.exchange at
    process_entry deps sym VectorTimeframe.m1 candle candles indicators

  -- The active ticket is read before an entry can open one.
  unfoldable pub process_symbol :
      Candle D → Timeframe → ActiveSymbol → Action (Running X) (Unit {0})
  unfolding call process_timeframe process_exits
  process_symbol candle timeframe sym = do
    at ← call now
    reset ← call (reset_expired_losses sym.symbol sym.exchange at)
    candles ← call (get_candles sym.symbol sym.exchange timeframe 200)
    active ← call (get_active_ticket sym.symbol sym.exchange)
    process_timeframe candle timeframe (calc_all_indicators candles) candles sym
    when_some active (λ ticket. call (process_exits deps ticket candle timeframe))

  abbrev pub is_of : Candle D → ActiveSymbol → Bool
  is_of candle sym = eq_text sym.symbol candle.symbol && eq_exchange sym.exchange candle.exchange

  -- An exception of a symbol does not reach the others.
  unfoldable pub process_all :
      Candle D → Timeframe → List ActiveSymbol → Action (Running X) (Unit {0})
  unfolding process_symbol
  process_all candle timeframe [] = pure tt
  process_all candle timeframe (sym ∷ syms) = do
    outcome ← attempt (process_symbol candle timeframe sym)
    process_all candle timeframe syms

  unfoldable pub handle_candle_close :
      Candle D → Timeframe → List ActiveSymbol → Action (Running X) (Unit {0})
  unfolding process_all
  handle_candle_close candle timeframe active_symbols =
      process_all candle timeframe (filter (is_of candle) active_symbols)
