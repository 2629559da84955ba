-- ===== src/Positions/Tickets/Closing.antt =====
-- Moving a ticket on, and closing it.
use combine_trade.Prelude.{
  ok_injective, lookup-eq-ok, ℕ, ◌+◌, false, Option, none, some, Text, eq_text, eq_text_iff,
  eq_text_refl, find, update_where, ok, ◌≡◌, ◌∙◌, sym, ap, subst, refl, arith, >>=-eq-ok,
}
use combine_trade.Core.Types.{
  Exchange, eq_exchange_iff, idle, TicketState, initial, tp1_hit, tp2_hit, closed, eq_state,
}
use combine_trade.Core.Decimal.{Decimal, div, mul}
use combine_trade.Positions.Fsm.{validate_transition, can_transition, transition_map}
use combine_trade.Positions.Tickets.{
  TicketRow, Db, CloseTicketParams, LabelingDeps, SignalRow, row_at, has_id,
}
use combine_trade.Positions.Tickets.Operations.{
  transition_ticket, close_ticket, set_fsm, set_state, floor_seconds, close_row, label_vector,
}
use combine_trade.Positions.Tickets.Counts.{
  count_active, KeepsMarket, count_active-update, update-DistinctIds,
}
use combine_trade.Positions.Tickets.Consistency.{
  IsConsistent, Elsewhere, Agrees-idle, Agrees-same, set_fsm-DistinctRows, count_in,
}

transition-active :
    (from to : TicketState) (u : Unit {0})
    → validate_transition from to ≡ ok u
    → eq_state from closed ≡ false
unfolding validate_transition can_transition transition_map
transition-active initial to u h = refl
transition-active tp1_hit to u h = refl
transition-active tp2_hit to u h = refl
transition-active closed to u h = cc

module _ {D : Type 0} where
  -- Moving a ticket on, to any state but CLOSED, keeps the tables consistent.
  pub transition_ticket-IsConsistent :
      (db db' : Db D) (id : Text) (to : TicketState) (now : ℕ) (t : TicketRow D)
      → IsConsistent db
      → eq_state to closed ≡ false
      → transition_ticket db id to now ≡ ok (t, db')
      → IsConsistent db'
  unfolding transition_ticket
  transition_ticket-IsConsistent db db' id to now t c live h =
      let (old, found, h1) = lookup-eq-ok (find (has_id id) db.tickets) _ _ (t, db') h in
      let (u, valid, e) = >>=-eq-ok (validate_transition old.state to) _ h1 in
      let active = transition-active old.state to u valid in
      let f : TicketRow D → TicketRow D = set_state to now in
      let keeps : KeepsMarket f = record {
        symbols = λ _. refl;
        exchanges = λ _. refl;
        ids = λ _. refl;
      } in
      let same : (s : Text) (x : Exchange)
          → count_active s x (update_where (has_id id) f db.tickets) ≡ count_active s x db.tickets =
        λ s x. ground (arith, count_active-update s x id f db.tickets old c.ids found) in
      subst IsConsistent (ap (λ (p : TicketRow D × Db D). p.1) (ok_injective e)) (record {
        ids = update-DistinctIds id f db.tickets keeps c.ids;
        rows = c.rows;
        agree =
            Agrees-same (count_in db)
              (λ s x. count_active s x (update_where (has_id id) f db.tickets)) db.symbol_states
              same c.agree;
      })

  -- The other tables have no part in it.
  IsConsistent-eq :
      (db db' : Db D)
      → db'.tickets ≡ db.tickets
      → db'.symbol_states ≡ db.symbol_states
      → IsConsistent db
      → IsConsistent db'
  IsConsistent-eq db db' t r c = record {
    ids = rw t c.ids;
    rows = rw r c.rows;
    agree = rw (t, r) c.agree;
  }

module _ {D : Type 0} ⦃dec : Decimal D⦄ where
  label_vector-keeps :
      (v : Option Text) (deps : Option (LabelingDeps D)) (t : TicketRow D)
      (params : CloseTicketParams D) (now : ℕ) (db db' : Db D)
      → label_vector v deps t params now db ≡ ok db'
      → (db'.tickets ≡ db.tickets) × (db'.symbol_states ≡ db.symbol_states)
  unfolding label_vector
  label_vector-keeps none deps t params now db db' h = ground arith
  label_vector-keeps (some v) none t params now db db' h = ground arith
  label_vector-keeps (some v) (some deps) t params now db db' h =
      let (signal, found, e) =
        lookup-eq-ok (find (λ (s : SignalRow). eq_text s.id t.signal_id) db.signals) _ _ db' h in
      let same = ok_injective e in
      (sym (ap (λ (x : Db D). x.tickets) same), sym (ap (λ (x : Db D). x.symbol_states) same))

  -- The tickets and the symbol states after closing.
  pub close_ticket-tables :
      (db db' : Db D) (id : Text) (params : CloseTicketParams D) (now : ℕ) (t : TicketRow D)
      → close_ticket db id params now ≡ ok (t, db')
      → (old : TicketRow D) × (pct : D) × (find (has_id id) db.tickets ≡ some old)
        × (db'.tickets
            ≡ update_where
                (has_id id)
                (λ x. close_row params pct now x (floor_seconds old.opened_at now))
                db.tickets)
        × (db'.symbol_states
            ≡ update_where (row_at old.symbol old.exchange) (set_fsm idle now) db.symbol_states)
  unfolding close_ticket
  close_ticket-tables db db' id params now t h =
      let (old, found, h1) = lookup-eq-ok (find (has_id id) db.tickets) _ _ (t, db') h in
      let (u, valid, h2) = >>=-eq-ok (validate_transition old.state closed) _ h1 in
      let (pct, _, h3) = >>=-eq-ok (div params.pnl (mul old.entry_price old.size)) _ h2 in
      let (labelled, label, e) =
        >>=-eq-ok (label_vector params.vector_id params.labeling_deps old params now _) _ h3 in
      let (tickets, states) =
        label_vector-keeps params.vector_id params.labeling_deps old params now _ labelled label in
      let final = sym (ap (λ (p : TicketRow D × Db D). p.1) (ok_injective e)) in
      (
        old,
        pct,
        found,
        ap (λ (y : Db D). y.tickets) final ∙ tickets,
        ap (λ (y : Db D). y.symbol_states) final ∙ states,
      )

  -- Closing a ticket keeps the tables consistent.
  pub close_ticket-IsConsistent :
      (db db' : Db D) (id : Text) (params : CloseTicketParams D) (now : ℕ) (t : TicketRow D)
      → IsConsistent db
      → close_ticket db id params now ≡ ok (t, db')
      → IsConsistent db'
  unfolding close_ticket
  close_ticket-IsConsistent db db' id params now t c h =
      let (old, found, h1) = lookup-eq-ok (find (has_id id) db.tickets) _ _ (t, db') h in
      let (u, valid, h2) = >>=-eq-ok (validate_transition old.state closed) _ h1 in
      let (pct, _, h3) = >>=-eq-ok (div params.pnl (mul old.entry_price old.size)) _ h2 in
      let active = transition-active old.state closed u valid in
      let f : TicketRow D → TicketRow D =
        λ x. close_row params pct now x (floor_seconds old.opened_at now) in
      let shut : Db D = record db {
        tickets = update_where (has_id id) f db.tickets;
        symbol_states =
            update_where (row_at old.symbol old.exchange) (set_fsm idle now) db.symbol_states;
      } in
      let (labelled, label, e) =
        >>=-eq-ok (label_vector params.vector_id params.labeling_deps old params now shut) _ h3 in
      let keeps : KeepsMarket f = record {
        symbols = λ _. refl;
        exchanges = λ _. refl;
        ids = λ _. refl;
      } in
      let (tickets, states) =
        label_vector-keeps params.vector_id params.labeling_deps old params now shut labelled
          label in
      let count =
        λ (s : Text) (x : Exchange). count_active s x (update_where (has_id id) f db.tickets) in
      let moved =
        λ (s : Text) (x : Exchange). count_active-update s x id f db.tickets old c.ids found in
      let elsewhere : Elsewhere (count_in db) count old.symbol old.exchange = λ s x k. ground (
        arith,
        moved s x,
        eq_text_iff s old.symbol,
        eq_text_iff old.symbol s,
        eq_exchange_iff x old.exchange,
        eq_exchange_iff old.exchange x,
      ) in
      let here : count old.symbol old.exchange + 1 ≡ count_in db old.symbol old.exchange = ground (
        arith,
        moved old.symbol old.exchange,
        eq_text_refl old.symbol,
        eq_exchange_iff old.exchange old.exchange,
      ) in
      subst IsConsistent (ap (λ (p : TicketRow D × Db D). p.1) (ok_injective e)) (
        IsConsistent-eq shut labelled tickets states (record {
          ids = update-DistinctIds id f db.tickets keeps c.ids;
          rows =
              set_fsm-DistinctRows (row_at old.symbol old.exchange) idle now db.symbol_states
                c.rows;
          agree =
              Agrees-idle (count_in db) count old.symbol old.exchange elsewhere now db.symbol_states
                here c.agree;
        }))
