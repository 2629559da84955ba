-- ===== src/Positions/Tickets/Operations.antt =====
-- The operations of positions/ticket-manager.ts. Each runs in one transaction, so an error leaves
-- the tables as they were; row locks have no part in a sequential run. The id of a new row and the
-- current time are arguments. An UPDATE … RETURNING of a row that was just read under its lock returns
-- the row as it was written.
use combine_trade.Prelude.{
  ℕ, ◌-◌, ◌/◌, Bool, true, false, not, ◌∷◌, Option, none, some, Text, codes, eq_text, find, any,
  ◌&&◌, update_where, Result, ok, ◌>>=◌, ◌>>◌, throw_if, or_throw, if◌then◌else◌, leb,
}
use combine_trade.Prelude.Int.{ℤ, pos, negsuc}
use combine_trade.Core.Types.{
  Exchange, FsmState, idle, watching, has_position, eq_fsm, TicketState, initial, closed, Error,
  symbol_state_not_found, invalid_state, duplicate_ticket, ticket_not_found, signal_not_found,
  unique_violation, foreign_key_violation,
}
use combine_trade.Core.Decimal.{Decimal, nought, mul, div}
use combine_trade.Positions.Fsm.{validate_transition}
use combine_trade.Positions.Tickets.{
  SymbolStateRow, TicketRow, SignalRow, SignalDetailRow, VectorRow, Db, CreateTicketParams,
  CloseTicketParams, LabelingDeps, row_at, active_at, has_id,
}

-- floor((to - from) / 1000), which is negative if the clock went back.
abbrev pub floor_seconds : ℕ → ℕ → ℤ
floor_seconds from to =
    if leb from to then pos ((to - from) / 1000) else negsuc ((from - to - 1) / 1000)

module _ {D : Type 0} where
  unfoldable pub new_ticket : CreateTicketParams D → Text → ℕ → TicketRow D
  new_ticket params new_id now = record {
    id = new_id;
    symbol = params.symbol;
    exchange = params.exchange;
    signal_id = params.signal_id;
    parent_ticket_id = none;
    timeframe = params.timeframe;
    direction = params.direction;
    state = initial;
    entry_price = params.entry_price;
    sl_price = params.sl_price;
    current_sl_price = params.sl_price;
    size = params.size;
    remaining_size = params.size;
    leverage = params.leverage;
    tp1_price = params.tp1_price;
    tp2_price = params.tp2_price;
    pyramid_count = some 0;
    opened_at = now;
    closed_at = none;
    close_reason = none;
    result = none;
    pnl = none;
    pnl_pct = none;
    hold_duration_sec = none;
    updated_at = now;
  }

  -- INSERT INTO tickets: signal_id is unique and refers to a signal.
  unfoldable pub insert_ticket : Db D → TicketRow D → Result Error (Db D)
  insert_ticket db ticket = do
    throw_if (any (λ (t : TicketRow D). eq_text t.signal_id ticket.signal_id) db.tickets)
        (unique_violation ticket.signal_id)
    throw_if (not (any (λ (s : SignalRow). eq_text s.id ticket.signal_id) db.signals))
        (foreign_key_violation ticket.signal_id)
    ok (record db { tickets = ticket ∷ db.tickets })

  abbrev pub set_fsm : FsmState → ℕ → SymbolStateRow D → SymbolStateRow D
  set_fsm state now row = record row { fsm_state = state; updated_at = now }

  abbrev pub has_row_id : Text → SymbolStateRow D → Bool
  has_row_id id row = eq_text row.id id

  unfoldable pub create_ticket :
      Db D → CreateTicketParams D → Text → ℕ → Result Error (TicketRow D × Db D)
  unfolding new_ticket insert_ticket
  create_ticket db params new_id now = do
    row ←
        or_throw (find (row_at params.symbol params.exchange) db.symbol_states)
          symbol_state_not_found
    throw_if (if eq_fsm row.fsm_state watching then false else true) (invalid_state row.fsm_state)
    throw_if (any (active_at params.symbol params.exchange) db.tickets)
        (duplicate_ticket params.symbol params.exchange)
    let ticket = new_ticket params new_id now
    inserted ← insert_ticket db ticket
    ok (
      ticket,
      record inserted {
        symbol_states =
            update_where (has_row_id row.id) (set_fsm has_position now) inserted.symbol_states;
      },
    )

  abbrev pub set_state : TicketState → ℕ → TicketRow D → TicketRow D
  set_state state now t = record t { state = state; updated_at = now }

  unfoldable pub transition_ticket :
      Db D → Text → TicketState → ℕ → Result Error (TicketRow D × Db D)
  transition_ticket db ticket_id new_state now = do
    ticket ← or_throw (find (has_id ticket_id) db.tickets) (ticket_not_found ticket_id)
    validate_transition ticket.state new_state
    ok (
      set_state new_state now ticket,
      record db { tickets = update_where (has_id ticket_id) (set_state new_state now) db.tickets },
    )

  unfoldable pub get_active_ticket : Db D → Text → Exchange → Option (TicketRow D)
  get_active_ticket db symbol exchange = find (active_at symbol exchange) db.tickets

  unfoldable pub get_ticket_by_id : Db D → Text → Option (TicketRow D)
  get_ticket_by_id db ticket_id = find (has_id ticket_id) db.tickets

module _ {D : Type 0} ⦃dec : Decimal D⦄ where
  abbrev pub close_row : CloseTicketParams D → D → ℕ → TicketRow D → ℤ → TicketRow D
  close_row params pnl_pct closed_at t held = record t {
    state = closed;
    closed_at = some closed_at;
    close_reason = some params.close_reason;
    result = some params.result;
    pnl = some params.pnl;
    pnl_pct = some pnl_pct;
    hold_duration_sec = some held;
    updated_at = closed_at;
  }

  -- The value of the signal's knn_winrate detail, "0" if there is none.
  abbrev pub winrate_or_zero : Option (SignalDetailRow D) → D
  winrate_or_zero none = nought
  winrate_or_zero (some row) = elim row.value [ none ↦ nought | some value ↦ value ]

  unfoldable pub knn_winrate : Db D → Text → D
  knn_winrate db signal_id = winrate_or_zero (
      find
        (λ (r : SignalDetailRow D).
          eq_text r.signal_id signal_id && eq_text r.key (codes "knn_winrate"))
        db.signal_details)

  -- Step 8: both the vector and the injected functions have to be given.
  unfoldable pub label_vector :
      Option Text
      → Option (LabelingDeps D)
      → TicketRow D
      → CloseTicketParams D
      → ℕ
      → Db D
      → Result Error (Db D)
  unfolding knn_winrate
  label_vector (some vector_id) (some deps) ticket params closed_at db = do
    signal ←
        or_throw (find (λ (s : SignalRow). eq_text s.id ticket.signal_id) db.signals)
          (signal_not_found ticket.signal_id)
    ok (record db {
      vectors =
          update_where (λ (v : VectorRow). eq_text v.id vector_id)
            (λ v. record v {
              label = some (deps.classify_result params.pnl (some params.close_reason));
              grade = some (
                  deps.classify_grade signal.signal_type signal.safety_passed
                    (knn_winrate db ticket.signal_id));
              labeled_at = some closed_at;
            })
            db.vectors;
    })
  label_vector _ _ ticket params closed_at db = ok db

  unfoldable pub close_ticket :
      Db D → Text → CloseTicketParams D → ℕ → Result Error (TicketRow D × Db D)
  unfolding label_vector
  close_ticket db ticket_id params closed_at = do
    ticket ← or_throw (find (has_id ticket_id) db.tickets) (ticket_not_found ticket_id)
    validate_transition ticket.state closed
    pnl_pct ← div params.pnl (mul ticket.entry_price ticket.size)
    let held = floor_seconds ticket.opened_at closed_at
    labelled ←
        label_vector params.vector_id params.labeling_deps ticket params closed_at (record db {
          tickets =
              update_where (has_id ticket_id) (λ t. close_row params pnl_pct closed_at t held)
                db.tickets;
          symbol_states =
              update_where (row_at ticket.symbol ticket.exchange) (set_fsm idle closed_at)
                db.symbol_states;
        })
    ok (close_row params pnl_pct closed_at ticket held, labelled)
