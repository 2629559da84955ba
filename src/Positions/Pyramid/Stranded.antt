-- ===== src/Positions/Pyramid/Stranded.antt =====
-- Closing the parent after a pyramid entry.
use combine_trade.Prelude.{
  ℕ, suc, ◌≤◌, true, false, List, [], ◌∷◌, some, Text, eq_text, eq_text_refl, find, update_where,
  All, ok, ◌≡◌, ◌∙◌, sym, ap, subst, refl, arith, Bool-cases, inl, inr,
}
use combine_trade.Core.Types.{Exchange, eq_exchange_iff, idle}
use combine_trade.Core.Decimal.{Decimal}
use combine_trade.Positions.Tickets.{
  TicketRow, Db, SymbolStateRow, CloseTicketParams, row_at, has_id,
}
use combine_trade.Positions.Tickets.Operations.{close_ticket, set_fsm}
use combine_trade.Positions.Tickets.Counts.{count_active, find-update}
use combine_trade.Positions.Tickets.Consistency.{count_in}
use combine_trade.Positions.Tickets.Closing.{close_ticket-tables}
use combine_trade.Positions.Pyramid.{ExecutePyramidParams, count_or_zero}
use combine_trade.Positions.Pyramid.Entry.{execute_pyramid, child_ticket, set_pyramid_count}
use combine_trade.Positions.Pyramid.Child.{execute_pyramid-tables}

module _ {D : Type 0} where
  update_where-idle :
      (symbol : Text) (exchange : Exchange) (now : ℕ) (rows : List (SymbolStateRow D))
      → All
          (λ r. row_at symbol exchange r ≡ true → r.fsm_state ≡ idle)
          (update_where (row_at symbol exchange) (set_fsm idle now) rows)
  update_where-idle symbol exchange now [] = tt
  update_where-idle symbol exchange now (r ∷ rs) = elim (Bool-cases (row_at symbol exchange r)) [
    | inl e ↦ rw e (λ h. refl, update_where-idle symbol exchange now rs)
    | inr e ↦ rw e (λ h. cc, update_where-idle symbol exchange now rs)
  ]

module _ {D S X : Type 0} ⦃dec : Decimal D⦄ where
  -- After a pyramid entry for a stored ticket, closing that ticket sets its market to IDLE, while the
  -- child ticket of the market is still active.
  pub close_ticket-execute_pyramid :
      (db db' db'' : Db D) (p : ExecutePyramidParams D S X) (id : Text) (now later : ℕ) (x x' : X)
      (child t : TicketRow D) (params : CloseTicketParams D)
      → find (has_id p.parent_ticket.id) db.tickets ≡ some p.parent_ticket
      → eq_text id p.parent_ticket.id ≡ false
      → execute_pyramid db p id now x ≡ (ok (child, db'), x')
      → close_ticket db' p.parent_ticket.id params later ≡ ok (t, db'')
      → (1 ≤ count_in db'' p.parent_ticket.symbol p.parent_ticket.exchange)
        × All
            (λ r.
              row_at p.parent_ticket.symbol p.parent_ticket.exchange r ≡ true → r.fsm_state ≡ idle)
            db''.symbol_states
  unfolding count_active child_ticket
  close_ticket-execute_pyramid db db' db'' p id now later x x' child t params stored fresh made
        closed =
      let parent = p.parent_ticket in
      let (size, entry, _, _, _, same, tables) =
        execute_pyramid-tables db p id now x x' child db' made in
      let raise : TicketRow D → TicketRow D =
        set_pyramid_count (suc (count_or_zero parent.pyramid_count)) now in
      let new : TicketRow D = child_ticket p size entry.filled_price id now in
      let tickets : db'.tickets ≡ new ∷ update_where (has_id parent.id) raise db.tickets =
        ap (λ (y : Db D). y.tickets) tables ∙ rw (same, fresh) refl in
      let there : find (has_id parent.id) db'.tickets ≡ some (raise parent) =
        rw (tickets, fresh)
          (find-update parent.id raise db.tickets parent
            (record { symbols = λ _. refl; exchanges = λ _. refl; ids = λ _. refl }) stored) in
      let (old, pct, found, after, states) =
        close_ticket-tables db' db'' parent.id params later t closed in
      let is_parent : old ≡ raise parent = ground (arith, found, there) in
      (
        rw
            (
              after,
              tickets,
              fresh,
              eq_text_refl parent.symbol,
              (eq_exchange_iff parent.exchange parent.exchange).1 refl,
            )
            (omega arith),
        subst
            (λ (o : TicketRow D).
              All (λ r. row_at o.symbol o.exchange r ≡ true → r.fsm_state ≡ idle)
                db''.symbol_states)
            is_parent
            (subst (All _) (sym states)
              (update_where-idle old.symbol old.exchange later db'.symbol_states)),
      )
