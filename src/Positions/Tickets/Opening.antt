-- ===== src/Positions/Tickets/Opening.antt =====
-- Opening a ticket.
use combine_trade.Prelude.{
  ok_injective, guards-eq-ok, two_guards-eq-ok, not, ℕ, true, false, List, [], ◌∷◌, some, Text,
  eq_text, eq_text_iff, eq_text_refl, find, any, update_where, All, Result, ok, ◌≡◌, ◌∙◌, sym, ap,
  subst, refl, arith, if◌then◌else◌, >>=-eq-ok, Bool-cases, inl, inr, ◌>>=◌,
}
use combine_trade.Core.Types.{
  Exchange, eq_exchange_iff, watching, has_position, initial, Error, symbol_state_not_found,
  invalid_state, duplicate_ticket, eq_fsm,
}
use combine_trade.Positions.Tickets.{
  SymbolStateRow, TicketRow, Db, CreateTicketParams, SignalRow, row_at, active_at, has_id,
}
use combine_trade.Positions.Tickets.Operations.{
  get_active_ticket, create_ticket, set_fsm, has_row_id, new_ticket, insert_ticket,
}
use combine_trade.Positions.Tickets.Counts.{count_active, any-count_active}
use combine_trade.Positions.Tickets.Consistency.{
  IsConsistent, expected_tickets, same_market_eq, Elsewhere, Agrees-position, set_fsm-DistinctRows,
  count_in,
}

module _ {D : Type 0} where
  created-Elsewhere :
      (db : Db D) (params : CreateTicketParams D) (id : Text) (now : ℕ)
      → Elsewhere
          (count_in db)
          (λ s e. count_active s e (new_ticket params id now ∷ db.tickets))
          params.symbol
          params.exchange
  unfolding new_ticket count_active
  created-Elsewhere db params id now s e k = ground (
    arith,
    eq_text_iff s params.symbol,
    eq_text_iff params.symbol s,
    eq_exchange_iff e params.exchange,
    eq_exchange_iff params.exchange e,
  )

  created_here :
      (db : Db D) (params : CreateTicketParams D) (id : Text) (now : ℕ)
      → any (active_at params.symbol params.exchange) db.tickets ≡ false
      → count_active params.symbol params.exchange (new_ticket params id now ∷ db.tickets) ≡ 1
  unfolding new_ticket count_active
  created_here db params id now h = ground (
    arith,
    any-count_active params.symbol params.exchange db.tickets,
    eq_text_refl params.symbol,
    eq_exchange_iff params.exchange params.exchange,
  )

  written : Db D → CreateTicketParams D → Text → ℕ → SymbolStateRow D → TicketRow D × Db D
  written db params id now row = (
    new_ticket params id now,
    record db {
      tickets = new_ticket params id now ∷ db.tickets;
      symbol_states = update_where (has_row_id row.id) (set_fsm has_position now) db.symbol_states;
    },
  )

  opened :
      Db D → CreateTicketParams D → Text → ℕ → SymbolStateRow D → Result Error (TicketRow D × Db D)
  opened db params id now row = insert_ticket db (new_ticket params id now) >>= λ inserted. ok (
    new_ticket params id now,
    record inserted {
      symbol_states =
          update_where (has_row_id row.id) (set_fsm has_position now) inserted.symbol_states;
    },
  )

  opened-written :
      (db : Db D) (params : CreateTicketParams D) (id : Text) (now : ℕ) (row : SymbolStateRow D)
      (made : TicketRow D × Db D)
      → opened db params id now row ≡ ok made
      → written db params id now row ≡ made
  unfolding opened written insert_ticket new_ticket
  opened-written db params id now row made h =
      let (inserted, i, h1) = >>=-eq-ok (insert_ticket db (new_ticket params id now)) _ h in
      let same =
        two_guards-eq-ok
          (any (λ (t : TicketRow D). eq_text t.signal_id params.signal_id) db.tickets)
          (not (any (λ (s : SignalRow). eq_text s.id params.signal_id) db.signals)) _ _ _ inserted
          i in
      ap
        (λ (x : Db D). (
          new_ticket params id now,
          record x {
            symbol_states =
                update_where (has_row_id row.id) (set_fsm has_position now) x.symbol_states;
          },
        ))
        same
      ∙ ok_injective h1

  -- Opening a ticket with a fresh id keeps the tables consistent.
  pub create_ticket-IsConsistent :
      (db db' : Db D) (params : CreateTicketParams D) (id : Text) (now : ℕ) (t : TicketRow D)
      → IsConsistent db
      → All (λ u. has_id id u ≡ false) db.tickets
      → create_ticket db params id now ≡ ok (t, db')
      → IsConsistent db'
  unfolding create_ticket new_ticket written opened
  create_ticket-IsConsistent db db' params id now t c fresh h =
      let (row, found, single, e) =
        guards-eq-ok (find (row_at params.symbol params.exchange) db.symbol_states)
          symbol_state_not_found (λ r. if eq_fsm r.fsm_state watching then false else true)
          (λ r. invalid_state r.fsm_state)
          (any (active_at params.symbol params.exchange) db.tickets)
          (duplicate_ticket params.symbol params.exchange) (opened db params id now) (t, db') h in
      subst IsConsistent
        (ap (λ (p : TicketRow D × Db D). p.1) (opened-written db params id now row (t, db') e))
        (record {
          ids = (fresh, c.ids);
          rows = set_fsm-DistinctRows (has_row_id row.id) has_position now db.symbol_states c.rows;
          agree =
              Agrees-position (count_in db)
                (λ s x. count_active s x (new_ticket params id now ∷ db.tickets)) params.symbol
                params.exchange now db.symbol_states row (created-Elsewhere db params id now)
                (created_here db params id now single) c.rows found c.agree;
        })

  row_count :
      (db : Db D) (symbol : Text) (exchange : Exchange) (rows : List (SymbolStateRow D))
      (row : SymbolStateRow D)
      → All (λ r. count_active r.symbol r.exchange db.tickets ≡ expected_tickets r.fsm_state) rows
      → find (row_at symbol exchange) rows ≡ some row
      → count_in db symbol exchange ≡ expected_tickets row.fsm_state
  row_count db symbol exchange [] row a h = cc
  row_count db symbol exchange (r ∷ rs) row (a, rest) h =
      elim (Bool-cases (row_at symbol exchange r)) [
        | inl e ↦
            let same : r ≡ row = ground arith in
            subst
              (λ (x : SymbolStateRow D). count_in db symbol exchange ≡ expected_tickets x.fsm_state)
              same (sym (same_market_eq (count_in db) r.symbol r.exchange symbol exchange e) ∙ a)
        | inr e ↦ row_count db symbol exchange rs row rest (ground arith)
      ]

  -- In consistent tables a market that is being watched accepts a ticket for a known signal that has
  -- none yet: the test for a duplicate never rejects it, the new ticket is the market's only active
  -- one, and its state is INITIAL.
  pub create_ticket-watching :
      (db : Db D) (params : CreateTicketParams D) (id : Text) (now : ℕ) (row : SymbolStateRow D)
      → IsConsistent db
      → find (row_at params.symbol params.exchange) db.symbol_states ≡ some row
      → row.fsm_state ≡ watching
      → any (λ (t : TicketRow D). eq_text t.signal_id params.signal_id) db.tickets ≡ false
      → any (λ (s : SignalRow). eq_text s.id params.signal_id) db.signals ≡ true
      → (t : TicketRow D) × (db' : Db D) × (create_ticket db params id now ≡ ok (t, db'))
        × (get_active_ticket db' params.symbol params.exchange ≡ some t)
        × (t.state ≡ initial)
        × (count_in db' params.symbol params.exchange ≡ 1)
  unfolding create_ticket insert_ticket new_ticket get_active_ticket written
  create_ticket-watching db params id now row c found w unused known =
      let none_left : any (active_at params.symbol params.exchange) db.tickets ≡ false =
        (any-count_active params.symbol params.exchange db.tickets).1 (
          row_count db params.symbol params.exchange db.symbol_states row c.agree found
          ∙ ap expected_tickets w) in
      (
        new_ticket params id now,
        (written db params id now row).1,
        rw (found, w, none_left, unused, known) refl,
        rw (eq_text_refl params.symbol, (eq_exchange_iff params.exchange params.exchange).1 refl)
            refl,
        refl,
        created_here db params id now none_left,
      )
