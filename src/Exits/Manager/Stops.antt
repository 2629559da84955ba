-- ===== src/Exits/Manager/Stops.antt =====
-- moveSl of exits/manager.ts: an edit of the stop order, or a cancel and a new one.
-- The code takes an empty id for none.
use combine_trade.Prelude.{Bool, true, [], ◌∷◌, Option, none, some, Text, Result, ok, err}
use combine_trade.Prelude.State.{State, pure, ◌>>=◌}
use combine_trade.Core.Types.{Exchange, close_side}
use combine_trade.Core.Decimal.{Decimal}
use combine_trade.Orders.Record.{
  Adapter, CreateOrderParams, OrderResult, NewOrderRow, sl, stop_market, record_order,
}
use combine_trade.Exits.Manager.{ExitTicket}

abbrev pub stop_params : {D : Type 0} → ExitTicket D → D → CreateOrderParams D
stop_params ticket new_sl_price = record {
  symbol = ticket.symbol;
  side = close_side ticket.direction;
  size = ticket.remaining_size;
  price = some new_sl_price;
  stop_loss = none;
  kind = stop_market;
  reduce_only = true;
}

module _ {D X : Type 0} ⦃dec : Decimal D⦄ (adapter : Adapter D X) where
  open adapter use {create_order, edit_order, cancel_order, random_uuid}

  -- The row of a stop order that the exchange took, with a key of its own.
  unfoldable pub record_sl :
      ExitTicket D → D → Exchange → Text → OrderResult D → State X (Option (NewOrderRow D))
  unfolding record_order
  record_sl ticket new_sl_price exchange intent_id result = do
    key ← random_uuid
    pure (
        some (
          record_order (record {
            exchange = exchange;
            order_type = sl;
            status = result.status;
            side = close_side ticket.direction;
            size = ticket.remaining_size;
            intent_id = intent_id;
            idempotency_key = key;
            ticket_id = some ticket.id;
            price = some new_sl_price;
            expected_price = some new_sl_price;
            filled_price = none;
            filled_size = none;
            exchange_order_id = some result.exchange_order_id;
            slippage = none;
            error_message = none;
          })))

  -- `if (slOrderId) try { await adapter.cancelOrder(…) } catch { warn }`
  unfoldable pub cancel_from : Option Text → Text → State X (Unit {0})
  cancel_from none symbol = pure tt
  cancel_from (some []) symbol = pure tt
  cancel_from (some (c ∷ cs)) symbol = do _ ← cancel_order (c ∷ cs) symbol; pure tt

  unfoldable pub cancel_old : ExitTicket D → State X (Unit {0})
  unfolding cancel_from
  cancel_old ticket = cancel_from ticket.sl_order_id ticket.symbol

  -- The row of a new stop order, or nothing where the exchange refuses it.
  unfoldable pub settle_create :
      ExitTicket D
      → D
      → Exchange
      → Text
      → Result Text (OrderResult D)
      → State X (Option (NewOrderRow D))
  unfolding record_sl
  settle_create ticket new_sl_price exchange intent_id (ok result) =
      record_sl ticket new_sl_price exchange intent_id result
  settle_create ticket new_sl_price exchange intent_id (err message) = pure none

  unfoldable pub create_sl : ExitTicket D → D → Exchange → Text → State X (Option (NewOrderRow D))
  unfolding settle_create
  create_sl ticket new_sl_price exchange intent_id = do
    answer ← create_order (stop_params ticket new_sl_price)
    settle_create ticket new_sl_price exchange intent_id answer

  -- The cancel and create path.
  unfoldable pub replace_sl : ExitTicket D → D → Exchange → Text → State X (Option (NewOrderRow D))
  unfolding cancel_old create_sl
  replace_sl ticket new_sl_price exchange intent_id = do
    _ ← cancel_old ticket
    create_sl ticket new_sl_price exchange intent_id

  -- An edit that fails falls back on the other path.
  unfoldable pub settle_edit :
      ExitTicket D
      → D
      → Exchange
      → Text
      → Result Text (OrderResult D)
      → State X (Option (NewOrderRow D))
  unfolding record_sl replace_sl
  settle_edit ticket new_sl_price exchange intent_id (ok result) =
      record_sl ticket new_sl_price exchange intent_id result
  settle_edit ticket new_sl_price exchange intent_id (err message) =
      replace_sl ticket new_sl_price exchange intent_id

  -- The stop order to edit, where there is one.
  unfoldable pub move_from :
      Option Text → ExitTicket D → D → Exchange → Text → Bool → State X (Option (NewOrderRow D))
  unfolding settle_edit replace_sl
  move_from (some (c ∷ cs)) ticket new_sl_price exchange intent_id true = do
    answer ← edit_order (c ∷ cs) new_sl_price
    settle_edit ticket new_sl_price exchange intent_id answer
  move_from _ ticket new_sl_price exchange intent_id _ =
      replace_sl ticket new_sl_price exchange intent_id

  unfoldable pub move_sl :
      ExitTicket D → D → Exchange → Text → Bool → State X (Option (NewOrderRow D))
  unfolding move_from
  move_sl ticket = move_from ticket.sl_order_id ticket
