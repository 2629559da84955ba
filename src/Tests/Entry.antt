-- ===== src/Tests/Entry.antt =====
-- An entry on an exchange that takes every order, fills it a little higher and ignores its stop price.
use combine_trade.Prelude.{Bool, true, false, none, some, codes, ok, err, ◌≡◌, refl, if◌then◌else◌}
use combine_trade.Prelude.Int.{ℤ, pos}
use combine_trade.Core.Types.{binance, long}
use combine_trade.Core.Fixed.{fixed}
use combine_trade.Positions.Tickets.{live}
use combine_trade.Orders.Record.{Adapter, CreateOrderParams, OrderKind, stop_market, filled}
use combine_trade.Orders.Entry.{ExecuteEntryParams}
use combine_trade.Orders.Entry.Steps.{execute_entry}
use combine_trade.Orders.Entry.Protected.{IsExchange, IsKept, Settled, execute_entry-Settled}

data Position : Type 0 where
  flat naked covered : Position

abbrev is_stop : OrderKind → Bool
is_stop stop_market = true
is_stop _ = false

abbrev moved : CreateOrderParams ℤ → Position
moved o = if is_stop o.kind then covered else if o.reduce_only then flat else naked

abbrev exchange : Adapter ℤ Position
exchange = record {
  create_order = λ o x. (
    ok (record {
      order_id = codes "order";
      exchange_order_id = codes "order";
      status = filled;
      filled_price = some (pos 1_000_100);
      filled_size = none;
    }),
    moved o,
  );
  edit_order = λ id price x. (err (codes "no edits"), x);
  cancel_order = λ id symbol x. (ok tt, x);
  random_uuid = λ x. (codes "uuid", x);
  set_leverage = λ n symbol x. (ok tt, x);
  now = λ x. (0, x);
}

abbrev params : ExecuteEntryParams ℤ
params = record {
  symbol = codes "BTCUSDT";
  exchange = binance;
  mode = live;
  direction = long;
  entry_price = pos 1_000_000;
  sl_price = pos 900_000;
  size = pos 20_000;
  leverage = 3;
  max_slippage_pct = pos 500;
  spread_check = none;
  supports_one_step_order = true;
}

abbrev Is : Position → Position → Type 0
Is y x = x ≡ y

is-IsKept : (y : Position) → IsKept exchange (Is y)
is-IsKept y = record { uuids = λ x h. h; times = λ x h. h; leverages = λ n symbol x h. h }

exchange-IsExchange : IsExchange exchange params (Is flat) (Is naked) (Is covered) (Is naked)
exchange-IsExchange = record {
  flat_kept = is-IsKept flat;
  naked_kept = is-IsKept naked;
  covered_kept = is-IsKept covered;
  bracketed_kept = is-IsKept naked;
  brackets = λ x h. refl;
  entries = λ x h. refl;
  stops = λ x h. refl;
  naked_closes = λ x h. refl;
  bracketed_closes = λ x h. refl;
}

execute_entry-Settled_example :
    Settled exchange params
      (Is flat)
      (Is naked)
      (Is covered)
      (Is naked)
      exchange-IsExchange
      (execute_entry exchange params flat)
unfolding fixed
execute_entry-Settled_example =
    execute_entry-Settled exchange params (Is flat) (Is naked) (Is covered) (Is naked)
      exchange-IsExchange refl flat refl
