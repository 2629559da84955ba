-- ===== src/Daemon/Pipeline/Entry.antt =====
-- processEntry of daemon/pipeline.ts. Each step that can end it early is a function of its own. The
-- indicators that the code sets fields of are a new record here; nothing reads the old one afterwards.
use combine_trade.Prelude.{
  ℕ, Bool, true, false, List, Option, none, some, Text, length, if◌then◌else◌,
}
use combine_trade.Prelude.Action.{Action, pure, ◌>>=◌, when, when_some}
use combine_trade.Core.Types.{Timeframe, h1, VectorTimeframe, DailyBias}
use combine_trade.Limits.LossLimit.{LossLimitConfig}
use combine_trade.Positions.Tickets.{ExecutionMode, analysis, alert, live}
use combine_trade.Knn.Types.{KnnConfig}
use combine_trade.Daemon.Pipeline.{
  Candle, AllIndicators, ActiveSymbol, SymbolState, WatchSession, EvidenceResult, SafetyResult,
  BlockResult, daily_bias_mismatch, PipelineDeps, Running,
}
use combine_trade.Daemon.Pipeline.Parts.{
  symbol_key, adapter_at, call, was_blocked, set_blocked, bias_mismatch, is_pass, bias_of,
  loss_state, safety_state, entry_params, ticket_params, with_bb4_1h,
}

module _ {D N A X : Type 0} (deps : PipelineDeps D N A X) (sym : ActiveSymbol)
    (timeframe : VectorTimeframe) where
  open deps use {
    adapters, now, get_candles, calc_all_indicators, calc_bb4, get_symbol_state, is_trade_blocked,
    get_active_watch_session, check_evidence, check_safety, vectorize, insert_vector, search_knn,
    load_time_decay_config, apply_time_decay, make_decision, load_knn_config,
    load_knn_decision_config, compute_entry_size, create_ticket, execute_entry,
    load_slippage_config, check_loss_limit, load_loss_limit_config, check_account_daily_limit,
    get_balance, set_session_start_time, insert_event,
  }

  -- The order, and the ticket for it.
  unfoldable pub place_order :
      EvidenceResult D → WatchSession D → Text → A → Action (Running X) (Unit {0})
  unfolding call entry_params ticket_params
  place_order evidence session vector_id adapter = do
    sized ← call (compute_entry_size adapter sym.symbol sym.exchange evidence)
    slippage ← call load_slippage_config
    entry ← call (execute_entry adapter (entry_params sym evidence sized slippage))
    when entry.success
        (call (create_ticket (ticket_params sym timeframe evidence session sized vector_id entry)))

  -- An alert is sent without waiting for it.
  unfoldable pub by_mode :
      ExecutionMode → EvidenceResult D → WatchSession D → Text → Action (Running X) (Unit {0})
  unfolding place_order
  by_mode analysis evidence session vector_id = pure tt
  by_mode alert evidence session vector_id = pure tt
  by_mode live evidence session vector_id =
      when_some (adapter_at sym.exchange adapters) (place_order evidence session vector_id)

  -- The neighbours and the decision on them.
  unfoldable pub decide :
      EvidenceResult D → WatchSession D → List N → KnnConfig → Text → Action (Running X) (Unit {0})
  unfolding by_mode call
  decide evidence session embedding knn vector_id = do
    neighbors ← call (
        search_knn embedding (record {
          symbol = sym.symbol;
          exchange = sym.exchange;
          timeframe = timeframe;
          top_k = knn.top_k;
          distance_metric = knn.distance_metric;
        }))
    decay ← call load_time_decay_config
    at ← call now
    config ← call load_knn_decision_config
    when
        (is_pass
          (make_decision (apply_time_decay neighbors at decay) evidence.a_grade config).decision)
        (by_mode sym.execution_mode evidence session vector_id)

  -- What follows a bias that the direction contradicts, and one that it does not.
  unfoldable pub with_bias :
      Option DailyBias
      → EvidenceResult D
      → WatchSession D
      → List N
      → KnnConfig
      → Text
      → Action (Running X) (Unit {0})
  unfolding decide
  with_bias (some bias) evidence session embedding knn vector_id =
      call (
        insert_event
          (daily_bias_mismatch sym.symbol sym.exchange timeframe evidence.direction bias))
  with_bias none evidence session embedding knn vector_id =
      decide evidence session embedding knn vector_id

  abbrev pub safety_of :
      Candle D
      → List (Candle D)
      → AllIndicators D N
      → Option (SymbolState D)
      → EvidenceResult D
      → SafetyResult
  safety_of candle candles indicators state evidence =
      check_safety candle indicators (evidence.direction, timeframe) (safety_state state) candles

  -- From the evidence on.
  unfoldable pub with_evidence :
      Candle D
      → List (Candle D)
      → AllIndicators D N
      → Option (SymbolState D)
      → WatchSession D
      → EvidenceResult D
      → Action (Running X) (Unit {0})
  unfolding with_bias bias_mismatch call
  with_evidence candle candles indicators state session evidence =
      when (safety_of candle candles indicators state evidence).passed (do
        knn ← call load_knn_config
        vector_id ← call (
            insert_vector (record {
              candle_id = candle.id;
              symbol = sym.symbol;
              exchange = sym.exchange;
              timeframe = timeframe;
              embedding = vectorize candles indicators timeframe;
            }))
        with_bias (bias_mismatch (bias_of state) evidence.direction) evidence session
            (vectorize candles indicators timeframe) knn vector_id)

  -- The slower indicators: 1H bands, and for a 1M candle the 5M average.
  unfoldable pub with_sma20_5m :
      VectorTimeframe → AllIndicators D N → Action (Running X) (AllIndicators D N)
  unfolding call
  with_sma20_5m VectorTimeframe.m5 indicators = pure indicators
  with_sma20_5m VectorTimeframe.m1 indicators = do
    candles_5m ← call (get_candles sym.symbol sym.exchange Timeframe.m5 25)
    pure (record indicators { sma20_5m = (calc_all_indicators candles_5m).sma20 })

  unfoldable pub with_session :
      Candle D
      → List (Candle D)
      → AllIndicators D N
      → Option (SymbolState D)
      → WatchSession D
      → Action (Running X) (Unit {0})
  unfolding with_evidence with_sma20_5m with_bb4_1h call
  with_session candle candles indicators state session = do
    candles_1h ← call (get_candles sym.symbol sym.exchange h1 10)
    injected ←
        with_sma20_5m timeframe (with_bb4_1h (length candles_1h) (calc_bb4 candles_1h) indicators)
    when_some (check_evidence candle injected session)
        (with_evidence candle candles injected state session)

  -- A market without a row has no limits of its own.
  unfoldable pub within_symbol_limits : Option (SymbolState D) → D → LossLimitConfig D → Bool
  within_symbol_limits none balance config = true
  within_symbol_limits (some state) balance config =
      (check_loss_limit (loss_state state) balance config).allowed

  -- The limits and the watch session.
  unfoldable pub when_unblocked :
      Candle D → List (Candle D) → AllIndicators D N → Action (Running X) (Unit {0})
  unfolding with_session within_symbol_limits call
  when_unblocked candle candles indicators = do
    state ← call (get_symbol_state sym.symbol sym.exchange)
    balance ← call (get_balance sym.exchange)
    config ← call load_loss_limit_config
    account ← call (check_account_daily_limit balance config)
    when account.allowed (
        when (within_symbol_limits state balance config) (do
          session ← call (get_active_watch_session sym.symbol sym.exchange)
          when_some session (with_session candle candles indicators state)))

  -- A market that was blocked before starts a session.
  unfoldable pub settle_block :
      BlockResult → Bool → ℕ → Action (Running X) (Unit {0}) → Action (Running X) (Unit {0})
  unfolding set_blocked call symbol_key
  settle_block block before entry_now next =
      if block.blocked then set_blocked (symbol_key sym.symbol sym.exchange) true else (do
        started ← when before (call (set_session_start_time entry_now))
        unblocked ← set_blocked (symbol_key sym.symbol sym.exchange) false
        next)

  unfoldable pub process_entry :
      Candle D → List (Candle D) → AllIndicators D N → Action (Running X) (Unit {0})
  unfolding settle_block was_blocked when_unblocked call symbol_key
  process_entry candle candles indicators = do
    entry_now ← call now
    block ← call (is_trade_blocked entry_now)
    before ← was_blocked (symbol_key sym.symbol sym.exchange)
    settle_block block before entry_now (when_unblocked candle candles indicators)
