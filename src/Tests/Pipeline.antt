-- ===== src/Tests/Pipeline.antt =====
-- A market whose entry goes through every gate, with the ticket manager behind createTicket, and 1D, 1M
-- and 5M candles.
use combine_trade.Prelude.{
  ℕ, zero, suc, ◌≤◌, Bool, true, false, List, [], ◌∷◌, Option, none, some, Text, codes, map, length,
  Result, ok, err, ◌≡◌, ◌⊎◌, sym, refl, arith, ok_injective,
}
use combine_trade.Prelude.Int.{ℤ, pos}
use combine_trade.Prelude.Action.{pure}
use combine_trade.Core.Types.{
  double_b, binance, Timeframe, VectorTimeframe, long, neutral, long_only, Error, DailyBias,
}
use combine_trade.Core.Fixed.{fixed}
use combine_trade.Indicators.Ma.{calc_average}
use combine_trade.Knn.Types.{cosine, pass}
use combine_trade.Positions.Tickets.{TicketRow, Db, live}
use combine_trade.Positions.Tickets.Operations.{create_ticket}
use combine_trade.Orders.Entry.{ExecuteEntryResult}
use combine_trade.Exits.Checker.{no_exit}
use combine_trade.Daemon.Pipeline.{
  Candle, AllIndicators, normal, ActiveSymbol, WatchSession, bb4_touch, EvidenceResult, EntrySize,
  PipelineDeps, Running,
}
use combine_trade.Daemon.Pipeline.Entry.{place_order, process_entry}
use combine_trade.Daemon.Pipeline.Sessions.{process_1d}
use combine_trade.Daemon.Pipeline.Candles.{process_timeframe}
use combine_trade.Daemon.Pipeline.Gated.{IsKept, IsCleared}
use combine_trade.Daemon.Pipeline.Gated.Orders.{process_entry_gated}
use combine_trade.Daemon.Pipeline.Unticketed.{place_order_unticketed}
use combine_trade.Daemon.Pipeline.Priority.{process_timeframe_prioritized}
use combine_trade.Daemon.Pipeline.Bias.{process_1d_unchanged}

record World : Type 0 where
  orders : ℕ
  bias : DailyBias
  db : Db ℤ

abbrev candle : Candle ℤ
candle = record {
  id = codes "candle";
  symbol = codes "BTCUSDT";
  exchange = binance;
  timeframe = Timeframe.m5;
  open_time = 1_000;
  open_price = pos 990_000;
  high = pos 1_010_000;
  low = pos 980_000;
  close = pos 1_000_000;
  volume = pos 10_000;
  is_closed = true;
}

abbrev price : Candle ℤ → ℕ
price c = 1

abbrev is_nan : ℕ → Bool
is_nan n = false

abbrev to_decimal : ℕ → ℤ
to_decimal n = pos n

abbrev sma : List ℕ → ℕ → List ℕ
sma prices period = prices

abbrev indicators_with : Option ℤ → AllIndicators ℤ ℕ
indicators_with average = record {
  bb20 = none;
  bb4 = none;
  bb4_1h = none;
  sma20 = average;
  prev_sma20 = none;
  sma20_5m = none;
  sma20_history = [];
  sma60 = none;
  sma120 = none;
  ema20 = none;
  ema60 = none;
  ema120 = none;
  rsi14 = none;
  rsi_history = [];
  atr14 = none;
  squeeze = normal;
  bandwidth_history = [];
}

abbrev sym_live : ActiveSymbol
sym_live = record { symbol = codes "BTCUSDT"; exchange = binance; execution_mode = live }

abbrev watch : WatchSession ℤ
watch = record {
  id = codes "watch";
  symbol = codes "BTCUSDT";
  exchange = binance;
  detection_type = bb4_touch;
  direction = long;
  tp1_price = none;
  tp2_price = none;
  detected_at = 500;
}

abbrev shown : EvidenceResult ℤ
shown = record {
  signal_type = double_b;
  direction = long;
  entry_price = pos 1_000_000;
  sl_price = pos 900_000;
  a_grade = false;
}

abbrev sized : EntrySize ℤ
sized = record { size = pos 1_000; leverage = 1 }

abbrev taken : ExecuteEntryResult ℤ
taken = record {
  success = true;
  entry_order = none;
  sl_order = none;
  aborted = false;
  abort_reason = none;
}

abbrev to_answer : World → Result Error (TicketRow ℤ × Db ℤ) → Result Text (Unit {0}) × World
to_answer w (ok (t, db')) = (ok tt, record w { db = db' })
to_answer w (err e) = (err (codes "createTicket"), w)

abbrev candles_up_to : ℕ → List (Candle ℤ)
candles_up_to zero = []
candles_up_to (suc n) = candle ∷ []

abbrev deps : PipelineDeps ℤ ℕ Text World
deps = record {
  adapters = (binance, codes "adapter") ∷ [];
  now = pure 2_000;
  get_candles = λ s e t n. pure (candles_up_to n);
  calc_all_indicators =
      λ cs. indicators_with (calc_average is_nan to_decimal sma (map price cs) 20);
  calc_bb4 = λ cs. none;
  get_symbol_state = λ s e. pure none;
  determine_daily_bias = λ c o t y. long_only;
  update_daily_bias = λ s e b o w. (ok tt, record w { bias = b });
  is_trade_blocked = λ at. pure (record { blocked = false; reason = none });
  detect_watching = λ c i b s. none;
  get_active_watch_session = λ s e. pure (some watch);
  open_watch_session = λ p. pure watch;
  invalidate_watch_session = λ id reason. pure tt;
  check_invalidation = λ c i s b. none;
  update_watch_session_tp = λ id tp1 tp2. pure tt;
  check_evidence = λ c i s. some shown;
  check_safety = λ c i s st cs. record { passed = true; reasons = [] };
  vectorize = λ cs i t. [];
  insert_vector = λ p. pure (codes "vector");
  search_knn = λ v o. pure [];
  load_time_decay_config = pure tt;
  apply_time_decay = λ ns at decay. [];
  make_decision = λ ns a c. record {
    decision = pass;
    win_rate = 1;
    expectancy = 1;
    sample_count = 40;
    a_grade = a;
  };
  load_knn_config = pure (record { top_k = 50; distance_metric = cosine });
  load_knn_decision_config = pure (record {
    winrate_threshold = 1;
    min_samples = 30;
    a_grade_winrate_threshold = 1;
    a_grade_min_samples = 20;
    commission_pct = 0;
  });
  get_active_ticket = λ s e. pure none;
  compute_entry_size = λ a s e v. pure sized;
  create_ticket = λ p w. to_answer w (create_ticket w.db p (codes "new") 2_000);
  execute_entry = λ a p w. (ok taken, record w { orders = suc w.orders });
  load_slippage_config = pure (pos 50);
  check_exit = λ t p at tf. record { type = no_exit; close_size = pos 0; close_reason = none };
  process_exit = λ a t action. pure (record {
    success = true;
    close_order = none;
    sl_order = none;
    new_state = none;
    ticket_updates = none;
  });
  process_trailing = λ a t p. pure (record {
    updated = false;
    new_trailing_price = none;
    new_max_profit = none;
    sl_order = none;
  });
  check_loss_limit = λ s b c. record { allowed = true; violations = [] };
  load_loss_limit_config = pure (record {
    max_daily_loss_pct = pos 1_000;
    max_session_losses = 3;
    max_hourly_5m = 2;
    max_hourly_1m = 1;
  });
  check_account_daily_limit =
      λ b c. pure (record { allowed = true; total_losses_today = pos 0; threshold = pos 100 });
  get_balance = λ e. pure (pos 1_000_000);
  reset_expired_losses =
      λ s e at. pure (record { daily_reset = false; session_reset = false; hourly_reset = false });
  set_session_start_time = λ at. pure tt;
  insert_event = λ e. pure tt;
}

abbrev start : World
start = record {
  orders = 0;
  bias = neutral;
  db = record {
    symbol_states = [];
    tickets = [];
    signals = record { id = codes "signal"; signal_type = double_b; safety_passed = true } ∷ [];
    signal_details = [];
    vectors = [];
  };
}

abbrev running : Running World
running = record { recent_1m_fired = []; previously_blocked = []; world = start }

kept : IsKept deps (λ (w : World). w.orders)
kept = record {
  now_kept = λ x. refl;
  candles_kept = λ s e t n x. refl;
  state_kept = λ s e x. refl;
  blocked_kept = λ at x. refl;
  session_kept = λ s e x. refl;
  vector_kept = λ p x. refl;
  search_kept = λ v o x. refl;
  decay_kept = λ x. refl;
  knn_config_kept = λ x. refl;
  decision_config_kept = λ x. refl;
  limits_kept = λ x. refl;
  account_kept = λ b c x. refl;
  balance_kept = λ e x. refl;
  start_kept = λ at x. refl;
  event_kept = λ e x. refl;
}

process_entry_gated_example :
    ((process_entry deps sym_live VectorTimeframe.m5 candle []
        (indicators_with none)
        running).1.world.orders
      ≡ 0)
    ⊎ IsCleared deps sym_live VectorTimeframe.m5 candle [] (indicators_with none) running
process_entry_gated_example =
    process_entry_gated deps sym_live VectorTimeframe.m5 (λ (w : World). w.orders) kept candle []
      (indicators_with none) running

created :
    (w : World) (r : Result Error (TicketRow ℤ × Db ℤ))
    → (to_answer w r).0 ≡ ok tt
    → (made : TicketRow ℤ × Db ℤ) × (r ≡ ok made)
created w (ok made) h = (made, refl)
created w (err e) h = cc

place_order_unticketed_example :
    (message : Text) × ((place_order deps sym_live VectorTimeframe.m5 shown watch
        (codes "vector")
        (codes "adapter")
        running).0
      ≡ err message)
place_order_unticketed_example =
    place_order_unticketed deps sym_live VectorTimeframe.m5 (λ (w : World). w.db) (λ w. codes "new")
      (λ w. 2_000) shown watch (codes "vector") (codes "adapter") running start start
      (record start { orders = 1 }) sized (pos 50) taken
      (λ p w. created w (create_ticket w.db p (codes "new") 2_000)) refl refl refl refl refl

-- What a 1M candle leaves, after an entry.
abbrev after_1m : Running World
after_1m = (process_timeframe deps candle Timeframe.m1 (indicators_with none) [] sym_live running).1

process_timeframe_prioritized_example :
    process_timeframe deps candle Timeframe.m5 (indicators_with none) [] sym_live after_1m
    ≡ (ok tt, record after_1m { world = after_1m.world })
process_timeframe_prioritized_example =
    process_timeframe_prioritized deps candle candle (indicators_with none) (indicators_with none)
      [] [] sym_live running after_1m 2_000 2_000 start after_1m.world refl refl refl (omega arith)

short_enough :
    (n : ℕ) (cs : List (Candle ℤ))
    → ◌≡◌ {A = Result Text (List (Candle ℤ))} (ok (candles_up_to n)) (ok cs)
    → length cs ≤ n
short_enough zero cs h = rw (sym (ok_injective h)) (omega arith)
short_enough (suc n) cs h = rw (sym (ok_injective h)) (omega arith)

process_1d_unchanged_example :
    (process_1d deps (codes "BTCUSDT") binance candle (indicators_with (some (pos 1))) start).1.bias
    ≡ neutral
process_1d_unchanged_example =
    process_1d_unchanged deps (λ (w : World). w.bias) is_nan to_decimal sma price (λ cs. refl)
      (λ s e t n x cs h. short_enough n cs h) (λ s e t n x. refl) (codes "BTCUSDT") binance candle
      (indicators_with (some (pos 1))) start
