-- ===== src/Exits/Manager/Outcome.antt =====
-- What an exit reports of the orders that it placed.
use combine_trade.Prelude.{
  Bool, true, false, Option, none, some, Text, Result, ok, err, ◌≡◌, ◌≢◌, refl, arith,
}
use combine_trade.Core.Types.{Exchange, TicketState, tp1_hit, tp2_hit, closed}
use combine_trade.Core.Decimal.{Decimal, sub}
use combine_trade.Orders.Record.{Adapter, NewOrderRow, OrderType, OrderResult}
use combine_trade.Exits.Checker.{ExitAction, ExitActionType, tp1, tp2, time_exit, no_exit}
use combine_trade.Exits.Checker.Fires.{action_type_to_new_state}
use combine_trade.Exits.Manager.{ExitTicket, ExitResult, TicketUpdates, action_type_to_order_type}
use combine_trade.Exits.Manager.Close.{
  process_exit, exit_by, settle_close, finish_exit, close_params,
}

-- The state that each exit takes the ticket to.
abbrev pub MovesTo : ExitActionType → Option TicketState → Type 0
MovesTo tp1 state = state ≡ some tp1_hit
MovesTo tp2 state = state ≡ some tp2_hit
MovesTo time_exit state = state ≡ some closed
MovesTo no_exit state = state ≡ none

action_type_to_new_state-MovesTo :
    (type : ExitActionType) → MovesTo type (action_type_to_new_state type)
unfolding action_type_to_new_state
action_type_to_new_state-MovesTo tp1 = refl
action_type_to_new_state-MovesTo tp2 = refl
action_type_to_new_state-MovesTo time_exit = refl
action_type_to_new_state-MovesTo no_exit = refl

module _ {D X : Type 0} ⦃dec : Decimal D⦄ (adapter : Adapter D X) where
  open adapter use {create_order, edit_order, random_uuid}

  -- The answer of the exchange to the close order.
  abbrev pub close_answer : ExitTicket D → ExitAction D → X → Result Text (OrderResult D)
  close_answer ticket action x =
      (create_order (close_params adapter ticket action) (random_uuid x).1).0

  -- What is reported when the close order goes through, and when it does not.
  abbrev pub Reported :
      ExitTicket D → ExitAction D → Result Text (OrderResult D) → ExitResult D → Type 0
  Reported ticket action (err m) r =
      (r.success ≡ false) × (r.sl_order ≡ none) × (r.new_state ≡ none) × (r.ticket_updates ≡ none)
  Reported ticket action (ok result) r =
      (r.success ≡ true)
      × MovesTo action.type r.new_state
      × ((u : TicketUpdates D) × (r.ticket_updates ≡ some u)
          × (u.remaining_size ≡ sub ticket.remaining_size action.close_size))

  finish_exit-Reported :
      (type : ExitActionType) (ticket : ExitTicket D) (action : ExitAction D) (exchange : Exchange)
      (intent_id : Text) (supports : Bool) (row : NewOrderRow D) (r : OrderResult D) (x : X)
      → action.type ≡ type
      → Reported ticket action
          (ok r)
          (finish_exit adapter type ticket action exchange intent_id supports row x).0
  unfolding finish_exit
  finish_exit-Reported tp1 ticket action exchange intent_id supports row r x e =
      (refl, rw e (action_type_to_new_state-MovesTo tp1), (_, refl, refl))
  finish_exit-Reported type ticket action exchange intent_id supports row r x e =
      (refl, rw e (action_type_to_new_state-MovesTo type), (_, refl, refl))

  settle_close-Reported :
      (kind : OrderType) (ticket : ExitTicket D) (action : ExitAction D) (exchange : Exchange)
      (intent_id : Text) (supports : Bool) (key : Text) (answer : Result Text (OrderResult D))
      (x : X)
      → Reported ticket action answer
          (settle_close adapter kind ticket action exchange intent_id supports key answer x).0
  unfolding settle_close
  settle_close-Reported kind ticket action exchange intent_id supports key (err m) x =
      (refl, refl, refl, refl)
  settle_close-Reported kind ticket action exchange intent_id supports key (ok r) x =
      finish_exit-Reported action.type ticket action exchange intent_id supports _ r x refl

  exit_by-Reported :
      (kind : Option OrderType) (ticket : ExitTicket D) (action : ExitAction D)
      (exchange : Exchange) (supports : Bool) (x : X)
      → kind ≢ none
      → Reported ticket action
          (close_answer ticket action x)
          (exit_by adapter kind ticket action exchange supports x).0
  unfolding exit_by
  exit_by-Reported none ticket action exchange supports x h = absurd (h refl)
  exit_by-Reported (some kind) ticket action exchange supports x h =
      settle_close-Reported kind ticket action exchange _ supports _ (close_answer ticket action x)
        _

  -- Every exit is reported by the answer to its close order: refused, it fails and asks for no change
  -- of the ticket; taken, it moves the ticket to the state of the exit with the closed size taken off.
  pub process_exit-Reported :
      (ticket : ExitTicket D) (action : ExitAction D) (exchange : Exchange) (supports : Bool)
      (x : X)
      → action.type ≢ no_exit
      → Reported ticket action
          (close_answer ticket action x)
          (process_exit adapter ticket action exchange supports x).0
  unfolding process_exit
  process_exit-Reported ticket action exchange supports x h =
      exit_by-Reported (action_type_to_order_type action.type) ticket action exchange supports x
        (ground arith)
