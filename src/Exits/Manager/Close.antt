-- ===== src/Exits/Manager/Close.antt =====
-- processExit of exits/manager.ts.
use combine_trade.Prelude.{Bool, true, false, Option, none, some, Text, Result, ok, err}
use combine_trade.Prelude.State.{State, pure, ◌>>=◌}
use combine_trade.Core.Types.{Exchange, close_side}
use combine_trade.Core.Decimal.{Decimal, sub}
use combine_trade.Orders.Record.{
  Adapter, CreateOrderParams, OrderResult, NewOrderRow, OrderType, failed, market, record_order,
}
use combine_trade.Exits.Checker.{ExitAction, ExitActionType, tp1}
use combine_trade.Exits.Checker.Fires.{action_type_to_new_state}
use combine_trade.Exits.Manager.{ExitTicket, ExitResult, action_type_to_order_type}
use combine_trade.Exits.Manager.Stops.{move_sl}

module _ {D X : Type 0} ⦃dec : Decimal D⦄ (adapter : Adapter D X) where
  open adapter use {create_order, edit_order, cancel_order, random_uuid}

  abbrev pub no_op : ExitResult D
  no_op = record {
    success = true;
    close_order = none;
    sl_order = none;
    new_state = none;
    ticket_updates = none;
  }

  -- The row of the close order, filled in from the answer of the exchange or marked as failed.
  unfoldable pub close_row :
      ExitTicket D
      → ExitAction D
      → Exchange
      → Text
      → Text
      → OrderType
      → Result Text (OrderResult D)
      → NewOrderRow D
  unfolding record_order
  close_row ticket action exchange intent_id key kind (ok result) = record_order (record {
    exchange = exchange;
    order_type = kind;
    status = result.status;
    side = close_side ticket.direction;
    size = action.close_size;
    intent_id = intent_id;
    idempotency_key = key;
    ticket_id = some ticket.id;
    price = none;
    expected_price = none;
    filled_price = result.filled_price;
    filled_size = result.filled_size;
    exchange_order_id = some result.exchange_order_id;
    slippage = none;
    error_message = none;
  })
  close_row ticket action exchange intent_id key kind (err message) = record_order (record {
    exchange = exchange;
    order_type = kind;
    status = failed;
    side = close_side ticket.direction;
    size = action.close_size;
    intent_id = intent_id;
    idempotency_key = key;
    ticket_id = some ticket.id;
    price = none;
    expected_price = none;
    filled_price = none;
    filled_size = none;
    exchange_order_id = none;
    slippage = none;
    error_message = some message;
  })

  -- What is left to do once the close order is placed: at TP1 the stop moves to breakeven.
  unfoldable pub finish_exit :
      ExitActionType
      → ExitTicket D
      → ExitAction D
      → Exchange
      → Text
      → Bool
      → NewOrderRow D
      → State X (ExitResult D)
  unfolding action_type_to_new_state
  finish_exit tp1 ticket action exchange intent_id supports_edit_order close_order = do
    sl_order ← move_sl adapter ticket ticket.entry_price exchange intent_id supports_edit_order
    pure (record {
      success = true;
      close_order = some close_order;
      sl_order = sl_order;
      new_state = action_type_to_new_state tp1;
      ticket_updates = some (record {
        remaining_size = sub ticket.remaining_size action.close_size;
        trailing_active = some true;
        current_sl_price = some ticket.entry_price;
      });
    })
  finish_exit type ticket action exchange intent_id supports_edit_order close_order = pure (record {
    success = true;
    close_order = some close_order;
    sl_order = none;
    new_state = action_type_to_new_state type;
    ticket_updates = some (record {
      remaining_size = sub ticket.remaining_size action.close_size;
      trailing_active = none;
      current_sl_price = none;
    });
  })

  abbrev pub failed_exit : NewOrderRow D → ExitResult D
  failed_exit close_order = record {
    success = false;
    close_order = some close_order;
    sl_order = none;
    new_state = none;
    ticket_updates = none;
  }

  abbrev pub close_params : ExitTicket D → ExitAction D → CreateOrderParams D
  close_params ticket action = record {
    symbol = ticket.symbol;
    side = close_side ticket.direction;
    size = action.close_size;
    price = none;
    stop_loss = none;
    kind = market;
    reduce_only = true;
  }

  unfoldable pub settle_close :
      OrderType
      → ExitTicket D
      → ExitAction D
      → Exchange
      → Text
      → Bool
      → Text
      → Result Text (OrderResult D)
      → State X (ExitResult D)
  unfolding close_row finish_exit
  settle_close kind ticket action exchange intent_id supports_edit_order key (ok result) =
      finish_exit action.type ticket action exchange intent_id supports_edit_order
        (close_row ticket action exchange intent_id key kind (ok result))
  settle_close kind ticket action exchange intent_id supports_edit_order key (err message) =
      pure (failed_exit (close_row ticket action exchange intent_id key kind (err message)))

  unfoldable pub exit_by :
      Option OrderType → ExitTicket D → ExitAction D → Exchange → Bool → State X (ExitResult D)
  unfolding settle_close
  exit_by none ticket action exchange supports_edit_order = pure no_op
  exit_by (some kind) ticket action exchange supports_edit_order = do
    intent_id ← random_uuid
    answer ← create_order (close_params ticket action)
    key ← random_uuid
    settle_close kind ticket action exchange intent_id supports_edit_order key answer

  -- `supports_edit_order` is true where the caller gives no exchange configuration.
  unfoldable pub process_exit :
      ExitTicket D → ExitAction D → Exchange → Bool → State X (ExitResult D)
  unfolding exit_by
  process_exit ticket action = exit_by (action_type_to_order_type action.type) ticket action
