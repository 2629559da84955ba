-- ===== src/Exits/Manager/Reducing.antt =====
-- What an exit asks of the exchange, and what it reports.
use combine_trade.Prelude.{
  Bool, true, [], ◌∷◌, Option, none, some, Text, Result, ok, err, ◌≡◌, refl,
}
use combine_trade.Core.Types.{Exchange, close_side}
use combine_trade.Core.Decimal.{Decimal}
use combine_trade.Orders.Record.{Adapter, CreateOrderParams, NewOrderRow, OrderType, OrderResult}
use combine_trade.Exits.Checker.{ExitAction, ExitActionType, tp1}
use combine_trade.Exits.Manager.{ExitTicket, action_type_to_order_type}
use combine_trade.Exits.Manager.Stops.{
  stop_params, record_sl, cancel_from, settle_create, replace_sl, settle_edit, move_from, move_sl,
}
use combine_trade.Exits.Manager.Close.{
  process_exit, exit_by, settle_close, finish_exit, close_params,
}

module _ {D X : Type 0} ⦃dec : Decimal D⦄ (adapter : Adapter D X) where
  open adapter use {create_order, edit_order, cancel_order, random_uuid}

  -- What the requests that only reduce the position of `ticket` keep true of the world.
  pub record KeptByReducing (P : X → Type 0) (ticket : ExitTicket D) : Type 0 where
    pub creates :
        (o : CreateOrderParams D) (x : X)
        → o.reduce_only ≡ true
        → o.symbol ≡ ticket.symbol
        → o.side ≡ close_side ticket.direction
        → P x
        → P (create_order o x).1
    pub edits :
        (id : Text) (price : D) (x : X)
        → ticket.sl_order_id ≡ some id
        → P x
        → P (edit_order id price x).1
    pub cancels :
        (id : Text) (x : X)
        → ticket.sl_order_id ≡ some id
        → P x
        → P (cancel_order id ticket.symbol x).1
    pub uuids : (x : X) → P x → P (random_uuid x).1

  module _ (P : X → Type 0) (ticket : ExitTicket D) (k : KeptByReducing P ticket) where
    open k use {creates, edits, cancels, uuids}

    record_sl-kept :
        (price : D) (exchange : Exchange) (intent_id : Text) (r : OrderResult D) (x : X)
        → P x
        → P (record_sl adapter ticket price exchange intent_id r x).1
    unfolding record_sl
    record_sl-kept price exchange intent_id r x p = uuids x p

    settle_create-kept :
        (price : D) (exchange : Exchange) (intent_id : Text) (r : Result Text (OrderResult D))
        (x : X)
        → P x
        → P (settle_create adapter ticket price exchange intent_id r x).1
    unfolding settle_create
    settle_create-kept price exchange intent_id (ok r) x p = uuids x p
    settle_create-kept price exchange intent_id (err m) x p = p

    cancel_from-kept :
        (open_order : Option Text) (x : X)
        → ticket.sl_order_id ≡ open_order
        → P x
        → P (cancel_from adapter open_order ticket.symbol x).1
    unfolding cancel_from
    cancel_from-kept none x e p = p
    cancel_from-kept (some []) x e p = p
    cancel_from-kept (some (c ∷ cs)) x e p = cancels (c ∷ cs) x e p

    replace_sl-kept :
        (price : D) (exchange : Exchange) (intent_id : Text) (x : X)
        → P x
        → P (replace_sl adapter ticket price exchange intent_id x).1
    unfolding replace_sl
    replace_sl-kept price exchange intent_id x p =
        let freed = cancel_from-kept ticket.sl_order_id x refl p in
        settle_create-kept price exchange intent_id _ _
          (creates (stop_params ticket price) _ refl refl refl freed)

    settle_edit-kept :
        (price : D) (exchange : Exchange) (intent_id : Text) (r : Result Text (OrderResult D))
        (x : X)
        → P x
        → P (settle_edit adapter ticket price exchange intent_id r x).1
    unfolding settle_edit
    settle_edit-kept price exchange intent_id (ok r) x p = uuids x p
    settle_edit-kept price exchange intent_id (err m) x p =
        replace_sl-kept price exchange intent_id x p

    move_from-kept :
        (open_order : Option Text) (price : D) (exchange : Exchange) (intent_id : Text)
        (supports : Bool) (x : X)
        → ticket.sl_order_id ≡ open_order
        → P x
        → P (move_from adapter open_order ticket price exchange intent_id supports x).1
    unfolding move_from
    move_from-kept (some (c ∷ cs)) price exchange intent_id true x e p =
        settle_edit-kept price exchange intent_id _ _ (edits (c ∷ cs) price x e p)
    move_from-kept _ price exchange intent_id _ x e p = replace_sl-kept price exchange intent_id x p

    finish_exit-kept :
        (type : ExitActionType) (action : ExitAction D) (exchange : Exchange) (intent_id : Text)
        (supports : Bool) (row : NewOrderRow D) (x : X)
        → P x
        → P (finish_exit adapter type ticket action exchange intent_id supports row x).1
    unfolding finish_exit move_sl
    finish_exit-kept tp1 action exchange intent_id supports row x p =
        move_from-kept ticket.sl_order_id ticket.entry_price exchange intent_id supports x refl p
    finish_exit-kept _ action exchange intent_id supports row x p = p

    settle_close-kept :
        (kind : OrderType) (action : ExitAction D) (exchange : Exchange) (intent_id : Text)
        (supports : Bool) (key : Text) (r : Result Text (OrderResult D)) (x : X)
        → P x
        → P (settle_close adapter kind ticket action exchange intent_id supports key r x).1
    unfolding settle_close
    settle_close-kept kind action exchange intent_id supports key (ok r) x p =
        finish_exit-kept action.type action exchange intent_id supports _ x p
    settle_close-kept kind action exchange intent_id supports key (err m) x p = p

    exit_by-kept :
        (kind : Option OrderType) (action : ExitAction D) (exchange : Exchange) (supports : Bool)
        (x : X)
        → P x
        → P (exit_by adapter kind ticket action exchange supports x).1
    unfolding exit_by
    exit_by-kept none action exchange supports x p = p
    exit_by-kept (some kind) action exchange supports x p =
        settle_close-kept kind action exchange _ supports _ _ _
          (uuids _ (creates (close_params adapter ticket action) _ refl refl refl (uuids x p)))

    -- Whatever the exchange answers, an exit only sends reduce-only orders on the close side of the
    -- ticket's own symbol, and only edits or cancels the ticket's own stop order: what such requests
    -- and fresh identifiers keep true of the world, the exit keeps true.
    pub process_exit-kept :
        (action : ExitAction D) (exchange : Exchange) (supports : Bool) (x : X)
        → P x
        → P (process_exit adapter ticket action exchange supports x).1
    unfolding process_exit
    process_exit-kept action exchange supports x p =
        exit_by-kept (action_type_to_order_type action.type) action exchange supports x p
