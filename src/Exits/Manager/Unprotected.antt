-- ===== src/Exits/Manager/Unprotected.antt =====
-- A first target on an exchange that takes no stop order.
use combine_trade.Prelude.{
  Bool, true, ◌∷◌, Option, none, some, Text, Result, ok, err, ◌≡◌, refl, ap,
}
use combine_trade.Core.Types.{Exchange}
use combine_trade.Core.Decimal.{Decimal}
use combine_trade.Orders.Record.{Adapter, NewOrderRow, OrderType, OrderResult}
use combine_trade.Exits.Checker.{ExitAction, tp1}
use combine_trade.Exits.Manager.{ExitTicket, TicketUpdates, action_type_to_order_type}
use combine_trade.Exits.Manager.Stops.{
  stop_params, settle_edit, cancel_from, settle_create, replace_sl, move_from, move_sl,
}
use combine_trade.Exits.Manager.Close.{
  process_exit, exit_by, settle_close, finish_exit, close_params, close_row,
}

module _ {D X : Type 0} ⦃dec : Decimal D⦄ (adapter : Adapter D X) where
  open adapter use {create_order, edit_order, random_uuid}

  -- An exchange that takes market orders and refuses every edit and every stop order.
  pub record RefusesStops (ticket : ExitTicket D) (action : ExitAction D) : Type 0 where
    pub takes :
        (x : X)
        → (r : OrderResult D) × ((create_order (close_params adapter ticket action) x).0 ≡ ok r)
    pub no_edit : (id : Text) (price : D) (x : X) → (m : Text) × ((edit_order id price x).0 ≡ err m)
    pub no_stop :
        (price : D) (x : X) → (m : Text) × ((create_order (stop_params ticket price) x).0 ≡ err m)

  module _ (ticket : ExitTicket D) (action : ExitAction D) (n : RefusesStops ticket action) where
    open n use {takes, no_edit, no_stop}

    replace_sl-none :
        (price : D) (exchange : Exchange) (intent_id : Text) (x : X)
        → (replace_sl adapter ticket price exchange intent_id x).0 ≡ none
    unfolding replace_sl
    replace_sl-none price exchange intent_id x =
        let y = (cancel_from adapter ticket.sl_order_id ticket.symbol x).1 in
        settle_create-none (create_order (stop_params ticket price) y).0 (no_stop price y)
      where
        settle_create-none :
            (a : Result Text (OrderResult D))
            → (m : Text) × (a ≡ err m)
            → (settle_create adapter ticket price exchange intent_id a
                (create_order
                  (stop_params ticket price)
                  (cancel_from adapter ticket.sl_order_id ticket.symbol x).1).1).0
              ≡ none
        settle_create-none (ok r) (m, e) = cc
        settle_create-none (err _) (m, e) = refl

    settle_edit-none :
        (price : D) (exchange : Exchange) (intent_id : Text) (a : Result Text (OrderResult D))
        (x : X)
        → (m : Text) × (a ≡ err m)
        → (settle_edit adapter ticket price exchange intent_id a x).0 ≡ none
    unfolding settle_edit
    settle_edit-none price exchange intent_id (ok r) x (m, e) = cc
    settle_edit-none price exchange intent_id (err _) x (m, e) =
        replace_sl-none price exchange intent_id x

    move_from-none :
        (open_order : Option Text) (price : D) (exchange : Exchange) (intent_id : Text)
        (supports : Bool) (x : X)
        → (move_from adapter open_order ticket price exchange intent_id supports x).0 ≡ none
    unfolding move_from
    move_from-none (some (c ∷ cs)) price exchange intent_id true x =
        settle_edit-none price exchange intent_id _ _ (no_edit (c ∷ cs) price x)
    move_from-none _ price exchange intent_id _ x = replace_sl-none price exchange intent_id x

    finish_exit-unprotected :
        (exchange : Exchange) (intent_id : Text) (supports : Bool) (row : NewOrderRow D) (x : X)
        → let r = (finish_exit adapter tp1 ticket action exchange intent_id supports row x).0 in
          (r.success ≡ true)
          × (r.sl_order ≡ none)
          × ((u : TicketUpdates D) × (r.ticket_updates ≡ some u)
              × (u.current_sl_price ≡ some ticket.entry_price))
    unfolding finish_exit move_sl
    finish_exit-unprotected exchange intent_id supports row x = (
      refl,
      move_from-none ticket.sl_order_id ticket.entry_price exchange intent_id supports x,
      (_, refl, refl),
    )

    settle_close-unprotected :
        (kind : OrderType) (exchange : Exchange) (intent_id : Text) (supports : Bool) (key : Text)
        (a : Result Text (OrderResult D)) (x : X)
        → action.type ≡ tp1
        → (o : OrderResult D) × (a ≡ ok o)
        → let r = (settle_close adapter kind ticket action exchange intent_id supports key a x).0 in
          (r.success ≡ true)
          × (r.sl_order ≡ none)
          × ((u : TicketUpdates D) × (r.ticket_updates ≡ some u)
              × (u.current_sl_price ≡ some ticket.entry_price))
    unfolding settle_close
    settle_close-unprotected kind exchange intent_id supports key (err m) x e (o, t) = cc
    settle_close-unprotected kind exchange intent_id supports key (ok o) x e t = rw e (
        finish_exit-unprotected exchange intent_id supports
          (close_row adapter ticket action exchange intent_id key kind (ok o)) x)

    -- Where the exchange takes the close order of a first target and then refuses to edit or to
    -- create a stop order, the exit is reported as a success and the ticket's stop as moved to the
    -- entry price, though there is no new stop order.
    pub process_exit-unprotected :
        (exchange : Exchange) (supports : Bool) (x : X)
        → action.type ≡ tp1
        → let r = (process_exit adapter ticket action exchange supports x).0 in
          (r.success ≡ true)
          × (r.sl_order ≡ none)
          × ((u : TicketUpdates D) × (r.ticket_updates ≡ some u)
              × (u.current_sl_price ≡ some ticket.entry_price))
    unfolding process_exit exit_by
    process_exit-unprotected exchange supports x e =
        rw (ap action_type_to_order_type e)
          (settle_close-unprotected OrderType.tp1 exchange _ supports _ _ _ e (takes _))
