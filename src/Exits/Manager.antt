-- ===== src/Exits/Manager.antt =====
-- exits/manager.ts: the records of the exit manager. The moves of the stop order are in Stops, the
-- exits in Close and the trailing stop in Trail. Logging is left out.
pub mod Stops
pub mod Close
pub mod Trail
pub mod Reducing
pub mod Outcome
pub mod Unprotected
pub mod Ratchet
use combine_trade.Prelude.{
  Bool, true, false, Option, none, some, Text, Result, ok, err, if◌then◌else◌,
}
use combine_trade.Prelude.State.{State, pure, ◌>>=◌}
use combine_trade.Core.Types.{TicketState, Direction, Exchange, close_side}
use combine_trade.Core.Decimal.{Decimal, nought, sub, max}
use combine_trade.Orders.Record.{
  Adapter, CreateOrderParams, OrderResult, RecordOrderParams, NewOrderRow, OrderType, sl,
  OrderStatus, failed, market, stop_market, record_order,
}
use combine_trade.Exits.Checker.{ExitAction, ExitActionType, tp1, tp2, time_exit, no_exit}
use combine_trade.Exits.Checker.Fires.{action_type_to_new_state}
use combine_trade.Exits.Trailing.{
  calc_max_profit, calculate_trailing_sl, should_update_trailing_sl, default_trailing_ratio,
}

pub record ExitTicket (D : Type 0) : Type 0 where
  pub id : Text
  pub symbol : Text
  pub exchange : Exchange
  pub direction : Direction
  pub entry_price : D
  pub size : D
  pub remaining_size : D
  pub trailing_active : Bool
  pub trailing_price : Option D
  pub max_profit : Option D
  pub sl_order_id : Option Text

pub record TicketUpdates (D : Type 0) : Type 0 where
  pub remaining_size : D
  pub trailing_active : Option Bool
  pub current_sl_price : Option D

pub record ExitResult (D : Type 0) : Type 0 where
  pub success : Bool
  pub close_order : Option (NewOrderRow D)
  pub sl_order : Option (NewOrderRow D)
  pub new_state : Option TicketState
  pub ticket_updates : Option (TicketUpdates D)

pub record TrailingUpdateResult (D : Type 0) : Type 0 where
  pub updated : Bool
  pub new_trailing_price : Option D
  pub new_max_profit : Option D
  pub sl_order : Option (NewOrderRow D)

-- There is no order type for no exit; the manager returns before it asks for one.
abbrev pub action_type_to_order_type : ExitActionType → Option OrderType
action_type_to_order_type tp1 = some OrderType.tp1
action_type_to_order_type tp2 = some OrderType.tp2
action_type_to_order_type time_exit = some OrderType.time_exit
action_type_to_order_type no_exit = none
