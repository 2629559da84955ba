-- ===== src/Daemon/Pipeline.antt =====
-- daemon/pipeline.ts: its types and its collaborators, which the code takes as one record and which are a
-- record over a world `X` here. An action may throw; a plain function of the record reads and changes
-- nothing. Numbers of embeddings are in `N`, adapters in `A`. JSON that the pipeline only passes on
-- (context and evidence details), logging, and the alerts and the latency event, which are sent without
-- waiting for them, are left out.
pub mod Parts
pub mod Entry
pub mod Exits
pub mod Sessions
pub mod Candles
pub mod Gated
pub mod Priority
pub mod Bias
pub mod Unticketed
use combine_trade.Prelude.{ℕ, Bool, List, Option, Text}
use combine_trade.Prelude.Action.{Action}
use combine_trade.Core.Types.{
  Exchange, Direction, Timeframe, VectorTimeframe, TicketState, DailyBias, SignalType,
}
use combine_trade.Knn.Types.{
  KnnConfig, DistanceMetric, KnnNeighbor, WeightedNeighbor, KnnDecisionResult, KnnDecisionConfig,
}
use combine_trade.Limits.LossLimit.{
  SymbolLossState, LossLimitConfig, LossLimitResult, AccountDailyLimitResult, ResetResult,
}
use combine_trade.Positions.Tickets.{ExecutionMode, CreateTicketParams}
use combine_trade.Orders.Entry.{ExecuteEntryParams, ExecuteEntryResult}
use combine_trade.Exits.Checker.{CheckExitInput, ExitAction}
use combine_trade.Exits.Manager.{ExitTicket, ExitResult, TrailingUpdateResult}

pub data DetectionType : Type 0 where
  squeeze_breakout sr_confluence bb4_touch : DetectionType

pub data SqueezeState : Type 0 where
  squeeze expansion normal : SqueezeState

pub record Candle (D : Type 0) : Type 0 where
  pub id : Text
  pub symbol : Text
  pub exchange : Exchange
  pub timeframe : Timeframe
  pub open_time : ℕ
  pub open_price : D
  pub high : D
  pub low : D
  pub close : D
  pub volume : D
  pub is_closed : Bool

pub record BollingerResult (D : Type 0) : Type 0 where
  pub upper : D
  pub middle : D
  pub lower : D
  pub bandwidth : D
  pub percent_b : D

pub record AllIndicators (D N : Type 0) : Type 0 where
  pub bb20 : Option (BollingerResult D)
  pub bb4 : Option (BollingerResult D)
  pub bb4_1h : Option (BollingerResult D)
  pub sma20 : Option D
  pub prev_sma20 : Option D
  pub sma20_5m : Option D
  pub sma20_history : List D
  pub sma60 : Option D
  pub sma120 : Option D
  pub ema20 : Option D
  pub ema60 : Option D
  pub ema120 : Option D
  pub rsi14 : Option D
  pub rsi_history : List N
  pub atr14 : Option D
  pub squeeze : SqueezeState
  pub bandwidth_history : List D

pub record ActiveSymbol : Type 0 where
  pub symbol : Text
  pub exchange : Exchange
  pub execution_mode : ExecutionMode

-- The columns of a symbol's state that the pipeline reads.
pub record SymbolState (D : Type 0) : Type 0 where
  pub daily_bias : Option DailyBias
  pub daily_open : Option D
  pub session_box_high : Option D
  pub session_box_low : Option D
  pub losses_today : D
  pub losses_session : ℕ
  pub losses_this_1h_5m : ℕ
  pub losses_this_1h_1m : ℕ

-- The fields of a watch session that the pipeline reads.
pub record WatchSession (D : Type 0) : Type 0 where
  pub id : Text
  pub symbol : Text
  pub exchange : Exchange
  pub detection_type : DetectionType
  pub direction : Direction
  pub tp1_price : Option D
  pub tp2_price : Option D
  pub detected_at : ℕ

pub record WatchingResult (D : Type 0) : Type 0 where
  pub detection_type : DetectionType
  pub direction : Direction
  pub tp1_price : D
  pub tp2_price : D

pub record OpenWatchSessionParams (D : Type 0) : Type 0 where
  pub symbol : Text
  pub exchange : Exchange
  pub detection_type : DetectionType
  pub direction : Direction
  pub tp1_price : D
  pub tp2_price : D
  pub detected_at : ℕ

pub record EvidenceResult (D : Type 0) : Type 0 where
  pub signal_type : SignalType
  pub direction : Direction
  pub entry_price : D
  pub sl_price : D
  pub a_grade : Bool

pub record SafetyResult : Type 0 where
  pub passed : Bool
  pub reasons : List Text

pub record SafetySymbolState (D : Type 0) : Type 0 where
  pub session_box_high : Option D
  pub session_box_low : Option D
  pub daily_bias : Option DailyBias

pub record BlockResult : Type 0 where
  pub blocked : Bool
  pub reason : Option Text

pub record InsertVectorParams (N : Type 0) : Type 0 where
  pub candle_id : Text
  pub symbol : Text
  pub exchange : Exchange
  pub timeframe : VectorTimeframe
  pub embedding : List N

pub record KnnSearchOptions : Type 0 where
  pub symbol : Text
  pub exchange : Exchange
  pub timeframe : VectorTimeframe
  pub top_k : ℕ
  pub distance_metric : DistanceMetric

pub record EntrySize (D : Type 0) : Type 0 where
  pub size : D
  pub leverage : ℕ

-- The fields of a ticket that the pipeline reads.
pub record Ticket (D : Type 0) : Type 0 where
  pub id : Text
  pub symbol : Text
  pub exchange : Exchange
  pub direction : Direction
  pub state : TicketState
  pub entry_price : D
  pub size : D
  pub remaining_size : D
  pub tp1_price : Option D
  pub tp2_price : Option D
  pub trailing_active : Bool
  pub trailing_price : Option D
  pub max_profit : D
  pub opened_at : ℕ

pub data PipelineEvent (D : Type 0) : Type 0 where
  bias_change : Text → Exchange → DailyBias → D → D → PipelineEvent D
  watching_start : Text → Exchange → Text → DetectionType → Direction → PipelineEvent D
  daily_bias_mismatch : Text → Exchange → VectorTimeframe → Direction → DailyBias → PipelineEvent D

pub record PipelineDeps (D N A X : Type 0) : Type 0 where
  pub adapters : List (Exchange × A)
  -- Date.now()
  pub now : Action X ℕ
  pub get_candles : Text → Exchange → Timeframe → ℕ → Action X (List (Candle D))
  pub calc_all_indicators : List (Candle D) → AllIndicators D N
  pub calc_bb4 : List (Candle D) → Option (BollingerResult D)
  pub get_symbol_state : Text → Exchange → Action X (Option (SymbolState D))
  pub determine_daily_bias : D → D → D → D → DailyBias
  pub update_daily_bias : Text → Exchange → DailyBias → D → Action X (Unit {0})
  pub is_trade_blocked : ℕ → Action X BlockResult
  pub detect_watching :
      Candle D → AllIndicators D N → DailyBias → Option (Option D) → Option (WatchingResult D)
  pub get_active_watch_session : Text → Exchange → Action X (Option (WatchSession D))
  pub open_watch_session : OpenWatchSessionParams D → Action X (WatchSession D)
  pub invalidate_watch_session : Text → Text → Action X (Unit {0})
  pub check_invalidation :
      Candle D → AllIndicators D N → WatchSession D → Option DailyBias → Option Text
  pub update_watch_session_tp : Text → D → D → Action X (Unit {0})
  pub check_evidence : Candle D → AllIndicators D N → WatchSession D → Option (EvidenceResult D)
  pub check_safety :
      Candle D
      → AllIndicators D N
      → Direction × VectorTimeframe
      → SafetySymbolState D
      → List (Candle D)
      → SafetyResult
  pub vectorize : List (Candle D) → AllIndicators D N → VectorTimeframe → List N
  -- The id of the new row.
  pub insert_vector : InsertVectorParams N → Action X Text
  pub search_knn : List N → KnnSearchOptions → Action X (List (KnnNeighbor N))
  -- The configuration of the decay is the empty object.
  pub load_time_decay_config : Action X (Unit {0})
  pub apply_time_decay : List (KnnNeighbor N) → ℕ → Unit {0} → List (WeightedNeighbor N)
  pub make_decision : List (WeightedNeighbor N) → Bool → KnnDecisionConfig N → KnnDecisionResult N
  pub load_knn_config : Action X KnnConfig
  pub load_knn_decision_config : Action X (KnnDecisionConfig N)
  pub get_active_ticket : Text → Exchange → Action X (Option (Ticket D))
  pub compute_entry_size : A → Text → Exchange → EvidenceResult D → Action X (EntrySize D)
  pub create_ticket : CreateTicketParams D → Action X (Unit {0})
  pub execute_entry : A → ExecuteEntryParams D → Action X (ExecuteEntryResult D)
  -- The config's maxSpreadPct.
  pub load_slippage_config : Action X D
  pub check_exit : CheckExitInput D → D → ℕ → Option Timeframe → ExitAction D
  pub process_exit : A → ExitTicket D → ExitAction D → Action X (ExitResult D)
  pub process_trailing : A → ExitTicket D → D → Action X (TrailingUpdateResult D)
  pub check_loss_limit : SymbolLossState D → D → LossLimitConfig D → LossLimitResult
  pub load_loss_limit_config : Action X (LossLimitConfig D)
  pub check_account_daily_limit : D → LossLimitConfig D → Action X (AccountDailyLimitResult D)
  pub get_balance : Exchange → Action X D
  pub reset_expired_losses : Text → Exchange → ℕ → Action X ResetResult
  pub set_session_start_time : ℕ → Action X (Unit {0})
  pub insert_event : PipelineEvent D → Action X (Unit {0})

-- The two maps of the module, and the world.
pub record Running (X : Type 0) : Type 0 where
  pub recent_1m_fired : List (Text × ℕ)
  pub previously_blocked : List (Text × Bool)
  pub world : X
