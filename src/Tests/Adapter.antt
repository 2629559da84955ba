-- ===== src/Tests/Adapter.antt =====
-- Two exchanges whose world is the list of the orders that were sent.
use combine_trade.Prelude.{List, ◌∷◌, none, Text, codes, Result, ok, err}
use combine_trade.Prelude.Int.{ℤ}
use combine_trade.Orders.Record.{
  Adapter, CreateOrderParams, OrderResult, OrderKind, stop_market, filled,
}

abbrev pub Sent : Type 0
Sent = List (CreateOrderParams ℤ)

abbrev pub taken : OrderResult ℤ
taken = record {
  order_id = codes "order";
  exchange_order_id = codes "order";
  status = filled;
  filled_price = none;
  filled_size = none;
}

-- Takes everything.
abbrev pub taking : Adapter ℤ Sent
taking = record {
  create_order = λ o x. (ok taken, o ∷ x);
  edit_order = λ id price x. (ok taken, x);
  cancel_order = λ id symbol x. (ok tt, x);
  random_uuid = λ x. (codes "uuid", x);
  set_leverage = λ n symbol x. (ok tt, x);
  now = λ x. (0, x);
}

abbrev answer : OrderKind → Result Text (OrderResult ℤ)
answer stop_market = err (codes "no stop orders")
answer _ = ok taken

-- Takes no stop order and no edit.
abbrev pub refusing : Adapter ℤ Sent
refusing = record {
  create_order = λ o x. (answer o.kind, o ∷ x);
  edit_order = λ id price x. (err (codes "no edits"), x);
  cancel_order = λ id symbol x. (ok tt, x);
  random_uuid = λ x. (codes "uuid", x);
  set_leverage = λ n symbol x. (ok tt, x);
  now = λ x. (0, x);
}
