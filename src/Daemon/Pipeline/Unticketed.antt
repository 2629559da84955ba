-- ===== src/Daemon/Pipeline/Unticketed.antt =====
-- An entry order that the executor took, and the ticket manager of this repository behind createTicket:
-- the id that the pipeline passes as the signal's is that of the vector.
use combine_trade.Prelude.{
  ℕ, true, false, Text, eq_text, any, find, ok, err, throw_if, ◌≡◌, inl, inr, arith, Result-cases,
  if◌then◌else◌, >>=-eq-ok, guards-eq-ok,
}
use combine_trade.Prelude.Action.{◌>>=◌, when}
use combine_trade.Core.Types.{
  VectorTimeframe, watching, eq_fsm, symbol_state_not_found, invalid_state, duplicate_ticket,
}
use combine_trade.Positions.Tickets.{
  TicketRow, Db, SignalRow, CreateTicketParams, row_at, active_at,
}
use combine_trade.Positions.Tickets.Operations.{create_ticket, insert_ticket, new_ticket}
use combine_trade.Orders.Entry.{ExecuteEntryResult}
use combine_trade.Daemon.Pipeline.{
  ActiveSymbol, WatchSession, EvidenceResult, EntrySize, PipelineDeps, Running,
}
use combine_trade.Daemon.Pipeline.Parts.{call, entry_params, ticket_params}
use combine_trade.Daemon.Pipeline.Entry.{place_order}

module _ {D : Type 0} where
  -- No ticket is created for an id that is no signal's.
  pub create_ticket_unknown :
      (db : Db D) (params : CreateTicketParams D) (id : Text) (now : ℕ)
      → any (λ (s : SignalRow). eq_text s.id params.signal_id) db.signals ≡ false
      → (made : TicketRow D × Db D) → ¬ (create_ticket db params id now ≡ ok made)
  unfolding create_ticket insert_ticket new_ticket
  create_ticket_unknown db params id now unknown made h =
      let (row, found, single, e) =
        guards-eq-ok (find (row_at params.symbol params.exchange) db.symbol_states)
          symbol_state_not_found (λ r. if eq_fsm r.fsm_state watching then false else true)
          (λ r. invalid_state r.fsm_state)
          (any (active_at params.symbol params.exchange) db.tickets)
          (duplicate_ticket params.symbol params.exchange) _ made h in
      let (inserted, i, _) = >>=-eq-ok (insert_ticket db (new_ticket params id now)) _ e in
      let (_, _, i') =
        >>=-eq-ok
          (throw_if (any (λ (t : TicketRow D). eq_text t.signal_id params.signal_id) db.tickets) _)
          _ i in
      ground (arith, unknown, i')

module _ {D N A X : Type 0} (deps : PipelineDeps D N A X) (sym : ActiveSymbol)
    (timeframe : VectorTimeframe) where
  open deps use {compute_entry_size, load_slippage_config, execute_entry}

  -- When createTicket is the one of the ticket manager and the executor takes the order, the entry
  -- throws unless the id of the vector is also that of a stored signal: the order is left without a
  -- ticket.
  pub place_order_unticketed :
      (db_of : X → Db D) (new_id : X → Text) (clock : X → ℕ) (evidence : EvidenceResult D)
      (session : WatchSession D) (vector_id : Text) (adapter : A) (r : Running X) (x1 x2 x3 : X)
      (sized : EntrySize D) (slippage : D) (entry : ExecuteEntryResult D)
      → ((params : CreateTicketParams D) (x : X)
          → (deps.create_ticket params x).0 ≡ ok tt
          → (made : TicketRow D × Db D) × (create_ticket (db_of x) params (new_id x) (clock x)
              ≡ ok made))
      → compute_entry_size adapter sym.symbol sym.exchange evidence r.world ≡ (ok sized, x1)
      → load_slippage_config x1 ≡ (ok slippage, x2)
      → execute_entry adapter (entry_params sym evidence sized slippage) x2 ≡ (ok entry, x3)
      → entry.success ≡ true
      → any (λ (s : SignalRow). eq_text s.id vector_id) (db_of x3).signals ≡ false
      → (message : Text) × ((place_order deps sym timeframe evidence session vector_id adapter r).0
          ≡ err message)
  unfolding place_order call ◌>>=◌ when ticket_params
  place_order_unticketed db_of new_id clock evidence session vector_id adapter r x1 x2 x3 sized
        slippage entry real e1 e2 e3 success unknown =
      let params = ticket_params sym timeframe evidence session sized vector_id entry in
      rw (e1, e2, e3, success)
        (elim (Result-cases (deps.create_ticket params x3).0) [
          | inl (u, done) ↦
              let (made, m) = real params x3 done in
              absurd (create_ticket_unknown (db_of x3) params (new_id x3) (clock x3) unknown made m)
          | inr (message, failed) ↦ (message, failed)
        ])
