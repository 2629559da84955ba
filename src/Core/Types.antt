-- ===== src/Core/Types.antt =====
-- core/types.ts: the string unions as data types with Boolean equalities (`===`), and the error
-- classes and messages that the modelled code throws.
use combine_trade.Prelude.{Bool, true, false, Text, ◌≡◌, ◌↔◌, arith}

pub data TicketState : Type 0 where
  initial tp1_hit tp2_hit closed : TicketState

pub data FsmState : Type 0 where
  idle watching has_position : FsmState

pub data Direction : Type 0 where
  long short : Direction

pub data Exchange : Type 0 where
  binance okx bitget mexc : Exchange

pub data Timeframe : Type 0 where
  d1 h1 m5 m1 : Timeframe

pub data VectorTimeframe : Type 0 where
  m5 m1 : VectorTimeframe

pub data DailyBias : Type 0 where
  long_only short_only neutral : DailyBias

pub data SignalType : Type 0 where
  double_b one_b : SignalType

pub data CloseReason : Type 0 where
  sl tp1 tp2 trailing time_exit panic_close manual : CloseReason

pub data TradeResult : Type 0 where
  win loss time_exit : TradeResult

pub data VectorGrade : Type 0 where
  a b c : VectorGrade

pub data OrderSide : Type 0 where
  buy sell : OrderSide

-- The close side of a direction.
unfoldable pub close_side : Direction → OrderSide
close_side long = sell
close_side short = buy

abbrev pub eq_state : TicketState → TicketState → Bool
eq_state initial initial = true
eq_state tp1_hit tp1_hit = true
eq_state tp2_hit tp2_hit = true
eq_state closed closed = true
eq_state _ _ = false

abbrev pub eq_fsm : FsmState → FsmState → Bool
eq_fsm idle idle = true
eq_fsm watching watching = true
eq_fsm has_position has_position = true
eq_fsm _ _ = false

abbrev pub eq_direction : Direction → Direction → Bool
eq_direction long long = true
eq_direction short short = true
eq_direction _ _ = false

abbrev pub eq_exchange : Exchange → Exchange → Bool
eq_exchange binance binance = true
eq_exchange okx okx = true
eq_exchange bitget bitget = true
eq_exchange mexc mexc = true
eq_exchange _ _ = false

pub eq_exchange_iff : (x y : Exchange) → (eq_exchange x y ≡ true) ↔ (x ≡ y)
eq_exchange_iff x y = ground arith

pub eq_direction_iff : (x y : Direction) → (eq_direction x y ≡ true) ↔ (x ≡ y)
eq_direction_iff x y = ground arith

-- What the code throws.
pub data Error : Type 0 where
  division_by_zero : Error
  invalid_transition : TicketState → TicketState → Error
  invalid_symbol_state_transition : FsmState → FsmState → Error
  -- InvalidStateError("WATCHING", actual); `none` for "NOT_FOUND".
  symbol_state_not_found : Error
  invalid_state : FsmState → Error
  duplicate_ticket : Text → Exchange → Error
  ticket_not_found : Text → Error
  signal_not_found : Text → Error
  unique_violation : Text → Error
  foreign_key_violation : Text → Error
  execution_mode_error : Error
  exchange_error : Text → Error
  negative_risk_pct zero_sl_distance : Error
  invalid_sl : Direction → Error
