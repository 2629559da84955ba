-- ===== src/Positions/Tickets.antt =====
-- positions/ticket-manager.ts: the tables that it works on. A numeric column holds a decimal, a
-- nullable one an option, a timestamp milliseconds. Columns that no operation here reads or sets are left
-- out: those of the trailing stop and of the excursions, and created_at. The operations are in Operations.
pub mod Operations
pub mod Counts
pub mod Consistency
pub mod Opening
pub mod Closing
pub mod Upsert
use combine_trade.Prelude.{ℕ, Bool, true, not, ◌&&◌, List, Option, Text, eq_text}
use combine_trade.Prelude.Int.{ℤ}
use combine_trade.Core.Types.{
  Exchange, eq_exchange, FsmState, TicketState, closed, eq_state, Direction, VectorTimeframe,
  CloseReason, TradeResult, VectorGrade, SignalType, DailyBias,
}

pub data ExecutionMode : Type 0 where
  analysis alert live : ExecutionMode

pub record SymbolStateRow (D : Type 0) : Type 0 where
  pub id : Text
  pub symbol : Text
  pub exchange : Exchange
  pub fsm_state : FsmState
  pub execution_mode : ExecutionMode
  pub daily_bias : Option DailyBias
  pub daily_open : Option D
  pub session_box_high : Option D
  pub session_box_low : Option D
  pub losses_today : Option D
  pub losses_session : Option ℕ
  pub losses_this_1h_5m : Option ℕ
  pub losses_this_1h_1m : Option ℕ
  pub updated_at : ℕ

pub record TicketRow (D : Type 0) : Type 0 where
  pub id : Text
  pub symbol : Text
  pub exchange : Exchange
  pub signal_id : Text
  pub parent_ticket_id : Option Text
  pub timeframe : VectorTimeframe
  pub direction : Direction
  pub state : TicketState
  pub entry_price : D
  pub sl_price : D
  pub current_sl_price : D
  pub size : D
  pub remaining_size : D
  pub leverage : ℕ
  pub tp1_price : Option D
  pub tp2_price : Option D
  pub pyramid_count : Option ℕ
  pub opened_at : ℕ
  pub closed_at : Option ℕ
  pub close_reason : Option CloseReason
  pub result : Option TradeResult
  pub pnl : Option D
  pub pnl_pct : Option D
  pub hold_duration_sec : Option ℤ
  pub updated_at : ℕ

pub record SignalRow : Type 0 where
  pub id : Text
  pub signal_type : SignalType
  pub safety_passed : Bool

pub record SignalDetailRow (D : Type 0) : Type 0 where
  pub signal_id : Text
  pub key : Text
  pub value : Option D

pub record VectorRow : Type 0 where
  pub id : Text
  pub label : Option TradeResult
  pub grade : Option VectorGrade
  pub labeled_at : Option ℕ

pub record Db (D : Type 0) : Type 0 where
  pub symbol_states : List (SymbolStateRow D)
  pub tickets : List (TicketRow D)
  pub signals : List SignalRow
  pub signal_details : List (SignalDetailRow D)
  pub vectors : List VectorRow

pub record CreateTicketParams (D : Type 0) : Type 0 where
  pub symbol : Text
  pub exchange : Exchange
  pub signal_id : Text
  pub timeframe : VectorTimeframe
  pub direction : Direction
  pub entry_price : D
  pub sl_price : D
  pub size : D
  pub leverage : ℕ
  pub tp1_price : Option D
  pub tp2_price : Option D

pub record LabelingDeps (D : Type 0) : Type 0 where
  pub classify_result : D → Option CloseReason → TradeResult
  pub classify_grade : SignalType → Bool → D → VectorGrade

pub record CloseTicketParams (D : Type 0) : Type 0 where
  pub close_reason : CloseReason
  pub result : TradeResult
  pub pnl : D
  pub vector_id : Option Text
  pub labeling_deps : Option (LabelingDeps D)

-- `symbol = … and exchange = …`
abbrev pub same_market : Text → Exchange → Text → Exchange → Bool
same_market s e symbol exchange = eq_text s symbol && eq_exchange e exchange

module _ {D : Type 0} where
  abbrev pub row_at : Text → Exchange → SymbolStateRow D → Bool
  row_at symbol exchange row = same_market row.symbol row.exchange symbol exchange

  abbrev pub is_active : TicketRow D → Bool
  is_active t = not (eq_state t.state closed)

  -- `symbol = … and exchange = … and state <> 'CLOSED'`
  abbrev pub active_at : Text → Exchange → TicketRow D → Bool
  active_at symbol exchange t = same_market t.symbol t.exchange symbol exchange && is_active t

  abbrev pub has_id : Text → TicketRow D → Bool
  has_id id t = eq_text t.id id
