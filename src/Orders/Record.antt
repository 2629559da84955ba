-- ===== src/Orders/Record.antt =====
-- core/ports.ts and recordOrder of orders/executor.ts: what the exchange adapter is asked and
-- answers, and the row that an order leaves. The adapter and the generator of random identifiers are
-- parameters: functions over a world `X`, where an error is an exception with its message. The timestamp
-- of an answer is left out.
use combine_trade.Prelude.{ℕ, Bool, Option, Text, Result}
use combine_trade.Prelude.State.{State}
use combine_trade.Core.Types.{Exchange, OrderSide}

pub data OrderStatus : Type 0 where
  pending filled partially_filled cancelled failed : OrderStatus

pub data OrderType : Type 0 where
  entry sl tp1 tp2 trailing pyramid panic_close time_exit : OrderType

pub data OrderKind : Type 0 where
  market limit stop_market : OrderKind

pub record CreateOrderParams (D : Type 0) : Type 0 where
  pub symbol : Text
  pub side : OrderSide
  pub size : D
  pub price : Option D
  pub stop_loss : Option D
  pub kind : OrderKind
  pub reduce_only : Bool

pub record OrderResult (D : Type 0) : Type 0 where
  pub order_id : Text
  pub exchange_order_id : Text
  pub status : OrderStatus
  pub filled_price : Option D
  pub filled_size : Option D

-- The operations of the port that entries and exits call, crypto.randomUUID and the clock.
pub record Adapter (D X : Type 0) : Type 0 where
  pub create_order : CreateOrderParams D → State X (Result Text (OrderResult D))
  -- The id of the order and its new price.
  pub edit_order : Text → D → State X (Result Text (OrderResult D))
  pub cancel_order : Text → Text → State X (Result Text (Unit {0}))
  pub random_uuid : State X Text
  -- The leverage of a symbol.
  pub set_leverage : ℕ → Text → State X (Result Text (Unit {0}))
  -- Date.now()
  pub now : State X ℕ

pub record RecordOrderParams (D : Type 0) : Type 0 where
  pub exchange : Exchange
  pub order_type : OrderType
  pub status : OrderStatus
  pub side : OrderSide
  pub size : D
  pub intent_id : Text
  pub idempotency_key : Text
  pub ticket_id : Option Text
  pub price : Option D
  pub expected_price : Option D
  pub filled_price : Option D
  pub filled_size : Option D
  pub exchange_order_id : Option Text
  pub slippage : Option D
  pub error_message : Option Text

pub record NewOrderRow (D : Type 0) : Type 0 where
  pub ticket_id : Option Text
  pub exchange : Exchange
  pub order_type : OrderType
  pub status : OrderStatus
  pub side : OrderSide
  pub size : D
  pub intent_id : Text
  pub idempotency_key : Text
  pub price : Option D
  pub expected_price : Option D
  pub filled_price : Option D
  pub filled_size : Option D
  pub exchange_order_id : Option Text
  pub slippage : Option D
  pub error_message : Option Text

-- A field that the caller leaves out is null in the row.
unfoldable pub record_order : {D : Type 0} → RecordOrderParams D → NewOrderRow D
record_order p = record {
  ticket_id = p.ticket_id;
  exchange = p.exchange;
  order_type = p.order_type;
  status = p.status;
  side = p.side;
  size = p.size;
  intent_id = p.intent_id;
  idempotency_key = p.idempotency_key;
  price = p.price;
  expected_price = p.expected_price;
  filled_price = p.filled_price;
  filled_size = p.filled_size;
  exchange_order_id = p.exchange_order_id;
  slippage = p.slippage;
  error_message = p.error_message;
}
