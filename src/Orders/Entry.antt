-- ===== src/Orders/Entry.antt =====
-- executeEntry of orders/executor.ts. A reason to abort is data in place of its text; logging and the
-- event log, which is written without waiting for it, are left out. An exception of the exchange that
-- the code does not catch is an error.
pub mod Steps
pub mod Protected
use combine_trade.Prelude.{
  ℕ, zero, suc, ◌-◌, Bool, true, false, Option, none, some, Text, Result, ok, err, if◌then◌else◌,
  ltb,
}
use combine_trade.Prelude.State.{State, pure, ◌>>=◌}
use combine_trade.Core.Types.{
  Exchange, Direction, long, short, OrderSide, buy, sell, close_side, Error, execution_mode_error,
  exchange_error,
}
use combine_trade.Core.Decimal.{Decimal, sub}
use combine_trade.Positions.Tickets.{ExecutionMode, live}
use combine_trade.Orders.Record.{
  Adapter, CreateOrderParams, OrderResult, RecordOrderParams, NewOrderRow, OrderType, entry, sl,
  panic_close, OrderStatus, failed, filled, market, stop_market, record_order,
}
use combine_trade.Orders.Slippage.{check_slippage, check_spread, SlippageResult, SpreadCheckResult}

pub record SpreadCheckConfig (D : Type 0) : Type 0 where
  pub bid : D
  pub ask : D
  pub max_spread_pct : D

pub record ExecuteEntryParams (D : Type 0) : Type 0 where
  pub symbol : Text
  pub exchange : Exchange
  pub mode : ExecutionMode
  pub direction : Direction
  pub entry_price : D
  pub sl_price : D
  pub size : D
  pub leverage : ℕ
  -- slippageConfig.maxSpreadPct
  pub max_slippage_pct : D
  pub spread_check : Option (SpreadCheckConfig D)
  -- False where there is no configuration of the exchange.
  pub supports_one_step_order : Bool

pub data AbortReason (D : Type 0) : Type 0 where
  spread_too_wide : D → D → AbortReason D
  entry_failed : Text → AbortReason D
  slippage_exceeded : D → D → AbortReason D
  sl_timeout sl_retries : AbortReason D

pub record ExecuteEntryResult (D : Type 0) : Type 0 where
  pub success : Bool
  pub entry_order : Option (NewOrderRow D)
  pub sl_order : Option (NewOrderRow D)
  pub aborted : Bool
  pub abort_reason : Option (AbortReason D)

pub data SlRegistration (D : Type 0) : Type 0 where
  registered : OrderResult D → SlRegistration D
  timed_out not_registered : SlRegistration D

abbrev pub sl_max_retries : ℕ
sl_max_retries = 3

abbrev pub sl_timeout_ms : ℕ
sl_timeout_ms = 3_000

abbrev pub entry_side : Direction → OrderSide
entry_side long = buy
entry_side short = sell

abbrev pub is_live : ExecutionMode → Bool
is_live live = true
is_live _ = false

module _ {D : Type 0} where
  -- The four orders that an entry may send.
  abbrev pub bracket_order : ExecuteEntryParams D → CreateOrderParams D
  bracket_order p = record {
    symbol = p.symbol;
    side = entry_side p.direction;
    size = p.size;
    price = none;
    stop_loss = some p.sl_price;
    kind = market;
    reduce_only = false;
  }

  abbrev pub plain_order : ExecuteEntryParams D → CreateOrderParams D
  plain_order p = record (bracket_order p) { stop_loss = none }

  abbrev pub stop_order : ExecuteEntryParams D → CreateOrderParams D
  stop_order p = record {
    symbol = p.symbol;
    side = close_side p.direction;
    size = p.size;
    price = some p.sl_price;
    stop_loss = none;
    kind = stop_market;
    reduce_only = true;
  }

  abbrev pub panic_order : ExecuteEntryParams D → CreateOrderParams D
  panic_order p = record (stop_order p) { price = none; kind = market }

  -- A row of one of them, with the fields that are the same for all.
  abbrev pub order_row :
      ExecuteEntryParams D → OrderType → OrderStatus → OrderSide → Text → Text → RecordOrderParams D
  order_row p type status side intent_id key = record {
    exchange = p.exchange;
    order_type = type;
    status = status;
    side = side;
    size = p.size;
    intent_id = intent_id;
    idempotency_key = key;
    ticket_id = none;
    price = none;
    expected_price = none;
    filled_price = none;
    filled_size = none;
    exchange_order_id = none;
    slippage = none;
    error_message = none;
  }

  unfoldable pub panic_row :
      ExecuteEntryParams D → Text → Text → Result Text (OrderResult D) → NewOrderRow D
  unfolding record_order
  panic_row p intent_id key (ok r) =
      record_order
        (record (order_row p panic_close r.status (close_side p.direction) intent_id key) {
          exchange_order_id = some r.exchange_order_id;
          filled_price = r.filled_price;
          filled_size = r.filled_size;
        })
  panic_row p intent_id key (err message) =
      record_order (record (order_row p panic_close failed (close_side p.direction) intent_id key) {
        error_message = some message;
      })

  unfoldable pub failed_entry_row : ExecuteEntryParams D → Text → Text → Text → NewOrderRow D
  unfolding record_order
  failed_entry_row p intent_id key message =
      record_order (record (order_row p entry failed (entry_side p.direction) intent_id key) {
        expected_price = some p.entry_price;
        error_message = some message;
      })

  -- The stop of a bracket order, which has no identifier, or one that was registered.
  unfoldable pub sl_row :
      ExecuteEntryParams D → Text → Text → OrderStatus → Option Text → NewOrderRow D
  unfolding record_order
  sl_row p intent_id key status order_id =
      record_order (record (order_row p sl status (close_side p.direction) intent_id key) {
        price = some p.sl_price;
        expected_price = some p.sl_price;
        exchange_order_id = order_id;
      })

  abbrev pub aborted_entry : Option (NewOrderRow D) → AbortReason D → ExecuteEntryResult D
  aborted_entry row reason = record {
    success = false;
    entry_order = row;
    sl_order = none;
    aborted = true;
    abort_reason = some reason;
  }

  abbrev pub made_entry : NewOrderRow D → NewOrderRow D → ExecuteEntryResult D
  made_entry row stop = record {
    success = true;
    entry_order = some row;
    sl_order = some stop;
    aborted = false;
    abort_reason = none;
  }

module _ {D : Type 0} ⦃dec : Decimal D⦄ where
  abbrev pub fill_slippage : D → Option D → Option D
  fill_slippage expected none = none
  fill_slippage expected (some price) = some (sub price expected)

  unfoldable pub entry_row : ExecuteEntryParams D → Text → Text → OrderResult D → NewOrderRow D
  unfolding record_order
  entry_row p intent_id key r =
      record_order (record (order_row p entry r.status (entry_side p.direction) intent_id key) {
        expected_price = some p.entry_price;
        exchange_order_id = some r.exchange_order_id;
        filled_price = r.filled_price;
        filled_size = r.filled_size;
        slippage = fill_slippage p.entry_price r.filled_price;
      })
