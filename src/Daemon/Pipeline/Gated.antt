-- ===== src/Daemon/Pipeline/Gated.antt =====
-- The entry of the pipeline sends an order only when every gate is open.
pub mod Orders
use combine_trade.Prelude.{ℕ, Bool, true, false, List, Option, none, some, Text, length, ◌≡◌}
use combine_trade.Prelude.Action.{Action, when, IsQuiet, Then}
use combine_trade.Core.Types.{
  Exchange, Direction, long, short, Timeframe, h1, VectorTimeframe, DailyBias, long_only,
  short_only, neutral,
}
use combine_trade.Limits.LossLimit.{LossLimitConfig}
use combine_trade.Positions.Tickets.{live}
use combine_trade.Knn.Types.{KnnConfig, pass}
use combine_trade.Daemon.Pipeline.{
  Candle, AllIndicators, ActiveSymbol, SymbolState, WatchSession, EvidenceResult,
  InsertVectorParams, KnnSearchOptions, PipelineEvent, PipelineDeps, Running,
}
use combine_trade.Daemon.Pipeline.Parts.{
  call, was_blocked, set_blocked, symbol_key, adapter_at, bias_of, loss_state, safety_state,
  with_bb4_1h,
}
use combine_trade.Daemon.Pipeline.Entry.{with_sma20_5m}

-- What no collaborator but the entry executor changes, such as the orders at the exchanges.
pub record IsKept {D N A X O : Type 0} (deps : PipelineDeps D N A X) (orders : X → O) : Type 0 where
  pub now_kept : IsQuiet orders deps.now
  pub candles_kept :
      (s : Text) (e : Exchange) (t : Timeframe) (n : ℕ) → IsQuiet orders (deps.get_candles s e t n)
  pub state_kept : (s : Text) (e : Exchange) → IsQuiet orders (deps.get_symbol_state s e)
  pub blocked_kept : (at : ℕ) → IsQuiet orders (deps.is_trade_blocked at)
  pub session_kept : (s : Text) (e : Exchange) → IsQuiet orders (deps.get_active_watch_session s e)
  pub vector_kept : (p : InsertVectorParams N) → IsQuiet orders (deps.insert_vector p)
  pub search_kept : (v : List N) (o : KnnSearchOptions) → IsQuiet orders (deps.search_knn v o)
  pub decay_kept : IsQuiet orders deps.load_time_decay_config
  pub knn_config_kept : IsQuiet orders deps.load_knn_config
  pub decision_config_kept : IsQuiet orders deps.load_knn_decision_config
  pub limits_kept : IsQuiet orders deps.load_loss_limit_config
  pub account_kept :
      (b : D) (c : LossLimitConfig D) → IsQuiet orders (deps.check_account_daily_limit b c)
  pub balance_kept : (e : Exchange) → IsQuiet orders (deps.get_balance e)
  pub start_kept : (at : ℕ) → IsQuiet orders (deps.set_session_start_time at)
  pub event_kept : (e : PipelineEvent D) → IsQuiet orders (deps.insert_event e)

-- A daily bias that is not NEUTRAL is the one of the direction.
abbrev pub Agrees : Option DailyBias → Direction → Type 0
Agrees none direction = Unit
Agrees (some neutral) direction = Unit
Agrees (some long_only) direction = direction ≡ long
Agrees (some short_only) direction = direction ≡ short

module _ {D N A X : Type 0} (deps : PipelineDeps D N A X) (sym : ActiveSymbol)
    (timeframe : VectorTimeframe) where
  open deps use {
    adapters, now, get_candles, calc_bb4, get_symbol_state, is_trade_blocked,
    get_active_watch_session, check_evidence, check_safety, vectorize, insert_vector, search_knn,
    apply_time_decay, make_decision, load_knn_config, load_time_decay_config,
    load_knn_decision_config, check_loss_limit, load_loss_limit_config, check_account_daily_limit,
    get_balance, set_session_start_time,
  }

  -- The decision on the neighbours of the vector, at the time and under the settings that are read
  -- then, is PASS, the mode is live and the exchange has an adapter.
  abbrev pub IsDecided : EvidenceResult D → List N → KnnConfig → Running X → Type 0
  IsDecided evidence embedding knn =
      Then
        (call (
          search_knn embedding (record {
            symbol = sym.symbol;
            exchange = sym.exchange;
            timeframe = timeframe;
            top_k = knn.top_k;
            distance_metric = knn.distance_metric;
          })))
        (λ neighbors. Then (call load_time_decay_config) (λ decay. Then (call now) (λ at.
          Then (call load_knn_decision_config) (λ config r.
            ((make_decision (apply_time_decay neighbors at decay) evidence.a_grade config).decision
              ≡ pass)
            × (sym.execution_mode ≡ live)
            × ((adapter : A) × (adapter_at sym.exchange adapters ≡ some adapter))))))

  -- The candle, with the slower indicators of then, is evidence for the session, it passes the safety
  -- test, and the daily bias agrees with the evidence.
  abbrev pub IsEvident :
      Candle D
      → List (Candle D)
      → AllIndicators D N
      → Option (SymbolState D)
      → WatchSession D
      → Running X
      → Type 0
  IsEvident candle candles indicators state session =
      Then (call (get_candles sym.symbol sym.exchange h1 10)) (λ candles_1h.
        Then
          (with_sma20_5m deps sym timeframe timeframe
            (with_bb4_1h (length candles_1h) (calc_bb4 candles_1h) indicators))
          (λ injected r.
            (evidence : EvidenceResult D) × (check_evidence candle injected session ≡ some evidence)
            × ((check_safety candle injected (evidence.direction, timeframe) (safety_state state)
                  candles).passed
                ≡ true)
            × Then (call load_knn_config)
                (λ knn.
                  Then
                    (call (
                      insert_vector (record {
                        candle_id = candle.id;
                        symbol = sym.symbol;
                        exchange = sym.exchange;
                        timeframe = timeframe;
                        embedding = vectorize candles injected timeframe;
                      })))
                    (λ id r'.
                      Agrees (bias_of state) evidence.direction
                      × IsDecided evidence (vectorize candles injected timeframe) knn r'))
                r))

  -- A market with a row is within its own limits.
  abbrev pub IsInLimits : Option (SymbolState D) → D → LossLimitConfig D → Type 0
  IsInLimits none balance config = Unit
  IsInLimits (some state) balance config =
      (check_loss_limit (loss_state state) balance config).allowed ≡ true

  -- The limits of the account and of the symbol, for the state and the balance of then, allow a trade,
  -- and the active watch session of then has evidence.
  abbrev pub IsWithin : Candle D → List (Candle D) → AllIndicators D N → Running X → Type 0
  IsWithin candle candles indicators =
      Then (call (get_symbol_state sym.symbol sym.exchange)) (λ state.
        Then (call (get_balance sym.exchange)) (λ balance.
          Then (call load_loss_limit_config) (λ config.
            Then (call (check_account_daily_limit balance config)) (λ account r.
              (account.allowed ≡ true)
              × IsInLimits state balance config
              × Then (call (get_active_watch_session sym.symbol sym.exchange))
                  (λ found r'.
                    (session : WatchSession D) × (found ≡ some session)
                    × IsEvident candle candles indicators state session r')
                  r))))

  -- From the state the entry starts in, each step being taken from the state that the one before it
  -- leaves: trading is not blocked at the time that is read, and the rest holds.
  abbrev pub IsCleared : Candle D → List (Candle D) → AllIndicators D N → Running X → Type 0
  IsCleared candle candles indicators = Then (call now) (λ at.
      Then (call (is_trade_blocked at)) (λ block.
        Then (was_blocked (symbol_key sym.symbol sym.exchange)) (λ before r.
          (block.blocked ≡ false)
          × Then (when before (call (set_session_start_time at)))
              (λ started.
                Then (set_blocked (symbol_key sym.symbol sym.exchange) false)
                  (λ unblocked. IsWithin candle candles indicators))
              r)))
