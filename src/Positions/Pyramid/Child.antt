-- ===== src/Positions/Pyramid/Child.antt =====
-- What a pyramid entry that returned has done.
use combine_trade.Prelude.{
  ℕ, suc, Option, none, some, true, not, List, ◌∷◌, Text, eq_text, any, update_where, Result, ok,
  err, ◌≡◌, subst, refl, sym, ap, ◌∙◌, inl, inr, arith, Bool-cases, Result-cases, ok_injective,
  two_guards-eq-ok, throw_if, >>=-eq-ok,
}
use combine_trade.Core.Types.{Error, initial}
use combine_trade.Core.Decimal.{Decimal}
use combine_trade.Positions.Sizer.{SizeResult, get_risk_pct, calculate_size}
use combine_trade.Positions.Tickets.{TicketRow, Db, SignalRow, has_id}
use combine_trade.Positions.Tickets.Operations.{insert_ticket}
use combine_trade.Positions.Pyramid.{
  PyramidError, EntryRequest, EntryResult, ExecutePyramidParams, count_or_zero, can_pyramid,
}
use combine_trade.Positions.Pyramid.Entry.{
  size_or_throw, lift_error, set_pyramid_count, entry_request, plan_pyramid, child_ticket,
  insert_child, settle_pyramid, enter_pyramid, execute_pyramid,
}

pub lift_error-eq-ok : {A : Type 0} (r : Result Error A) (a : A) → lift_error r ≡ ok a → r ≡ ok a
lift_error-eq-ok (ok b) a h = ap ok (ok_injective h)
lift_error-eq-ok (err e) a h = cc

size_or_throw-eq-ok :
    {D : Type 0} (o : Option (SizeResult D)) (size : SizeResult D)
    → size_or_throw o ≡ ok size
    → o ≡ some size
unfolding size_or_throw
size_or_throw-eq-ok none size h = cc
size_or_throw-eq-ok (some s) size h = ap some (ok_injective h)

module _ {D : Type 0} ⦃dec : Decimal D⦄ where
  -- The tickets afterwards: the child in front, and the count of the parent raised from the row that
  -- was passed.
  abbrev pub tickets_with_child :
      {S X : Type 0} → Db D → ExecutePyramidParams D S X → TicketRow D → ℕ → List (TicketRow D)
  tickets_with_child db p child now =
      update_where (has_id p.parent_ticket.id)
        (λ t. record t {
          pyramid_count = some (suc (count_or_zero p.parent_ticket.pyramid_count));
          updated_at = now;
        })
        (child ∷ db.tickets)

  module _ {S X : Type 0} (db : Db D) (p : ExecutePyramidParams D S X) (id : Text) (now : ℕ) where
    -- The size for the current balance and the prices of the signal.
    abbrev pub IsSized : SizeResult D → Type 0
    IsSized size =
        (risk : D) × (get_risk_pct p.balance ≡ ok risk)
        × (calculate_size (record {
          balance = p.balance;
          entry_price = p.signal.entry_price;
          sl_price = p.signal.sl_price;
          direction = p.signal.direction;
          exchange_info = p.exchange_info;
          risk_pct = risk;
        })
            ≡ ok (some size))

    -- The order for the market of the parent, in the direction and at the prices of the signal.
    abbrev pub IsOrderedFor : SizeResult D → EntryRequest D S → Type 0
    IsOrderedFor size request =
        (request.symbol ≡ p.parent_ticket.symbol)
        × (request.exchange ≡ p.parent_ticket.exchange)
        × (request.direction ≡ p.signal.direction)
        × (request.entry_price ≡ p.signal.entry_price)
        × (request.sl_price ≡ p.signal.sl_price)
        × (request.size ≡ size.size)
        × (request.leverage ≡ size.leverage)

    -- An initial ticket of the parent and the signal, of the whole size, at the price of the fill.
    abbrev pub IsChild : SizeResult D → EntryResult D → TicketRow D → Type 0
    IsChild size entry child =
        (child.id ≡ id)
        × (child.symbol ≡ p.parent_ticket.symbol)
        × (child.exchange ≡ p.parent_ticket.exchange)
        × (child.parent_ticket_id ≡ some p.parent_ticket.id)
        × (child.signal_id ≡ p.signal.id)
        × (child.state ≡ initial)
        × (child.direction ≡ p.signal.direction)
        × (child.size ≡ size.size)
        × (child.remaining_size ≡ size.size)
        × (child.leverage ≡ size.leverage)
        × (child.current_sl_price ≡ p.signal.sl_price)
        × ((price : D) → entry.filled_price ≡ some price → child.entry_price ≡ price)
        × (entry.filled_price ≡ none → child.entry_price ≡ p.signal.entry_price)

    plan_pyramid-IsSized :
        (size : SizeResult D)
        → plan_pyramid p ≡ ok size
        → ((can_pyramid p.parent_ticket p.config).allowed ≡ true) × IsSized size
    unfolding plan_pyramid size_or_throw
    plan_pyramid-IsSized size h = elim (Bool-cases (can_pyramid p.parent_ticket p.config).allowed) [
      | inr e ↦ cc
      | inl e ↦
          let (u, _, h1) =
            >>=-eq-ok (throw_if (not (can_pyramid p.parent_ticket p.config).allowed) _) _ h in
          let (risk, r, h2) = >>=-eq-ok (lift_error (get_risk_pct p.balance)) _ h1 in
          let (sized, s, h3) = >>=-eq-ok (lift_error (calculate_size _)) _ h2 in
          (
            e,
            (
              risk,
              lift_error-eq-ok _ _ r,
              lift_error-eq-ok _ _ s ∙ ap ok (size_or_throw-eq-ok sized size h3),
            ),
          )
    ]

    insert_child-tickets :
        (child t : TicketRow D) (db' : Db D)
        → insert_child db p child now ≡ ok (t, db')
        → (t ≡ child) × (db' ≡ record db { tickets = tickets_with_child db p child now })
    unfolding insert_child insert_ticket
    insert_child-tickets child t db' h =
        let (u, _, h1) =
          >>=-eq-ok (throw_if (not (any (has_id p.parent_ticket.id) db.tickets)) _) _ h in
        let (inserted, i, h2) = >>=-eq-ok (insert_ticket db child) _ h1 in
        let same =
          two_guards-eq-ok
            (any (λ (u : TicketRow D). eq_text u.signal_id child.signal_id) db.tickets)
            (not (any (λ (s : SignalRow). eq_text s.id child.signal_id) db.signals)) _ _ _ inserted
            i in
        let made = ok_injective h2 in
        (
          sym (ap (λ (q : TicketRow D × Db D). q.0) made),
          sym (
              ap
                (λ (y : Db D). record y {
                  tickets =
                      update_where (has_id p.parent_ticket.id)
                        (set_pyramid_count (suc (count_or_zero p.parent_ticket.pyramid_count)) now)
                        y.tickets;
                })
                same
              ∙ ap (λ (q : TicketRow D × Db D). q.1) made),
        )

    settle_pyramid-tickets :
        (size : SizeResult D) (answer : Result Text (EntryResult D)) (child : TicketRow D)
        (db' : Db D)
        → settle_pyramid db p size answer id now ≡ ok (child, db')
        → (entry : EntryResult D) × (answer ≡ ok entry)
          × (entry.success ≡ true)
          × (child ≡ child_ticket p size entry.filled_price id now)
          × (db' ≡ record db { tickets = tickets_with_child db p child now })
    unfolding settle_pyramid
    settle_pyramid-tickets size (err m) child db' h = cc
    settle_pyramid-tickets size (ok entry) child db' h = elim (Bool-cases entry.success) [
      | inl e ↦
          let (same, tables) =
            insert_child-tickets (child_ticket p size entry.filled_price id now) child db'
              (lift_error-eq-ok _ _ (ground (arith, e, h))) in
          (entry, refl, e, same, rw same tables)
      | inr e ↦ cc
    ]

    child_ticket-IsChild :
        (size : SizeResult D) (entry : EntryResult D)
        → IsChild size entry (child_ticket p size entry.filled_price id now)
    unfolding child_ticket
    child_ticket-IsChild size entry = (
      refl,
      refl,
      refl,
      refl,
      refl,
      refl,
      refl,
      refl,
      refl,
      refl,
      refl,
      λ price e. rw e refl,
      λ e. rw e refl,
    )

    pub execute_pyramid-tables :
        (x x' : X) (child : TicketRow D) (db' : Db D)
        → execute_pyramid db p id now x ≡ (ok (child, db'), x')
        → (size : SizeResult D) × (entry : EntryResult D) × (plan_pyramid p ≡ ok size)
          × (p.execute_entry (entry_request p size) x ≡ (ok entry, x'))
          × (entry.success ≡ true)
          × (child ≡ child_ticket p size entry.filled_price id now)
          × (db' ≡ record db { tickets = tickets_with_child db p child now })
    unfolding execute_pyramid enter_pyramid
    execute_pyramid-tables x x' child db' h = elim (Result-cases (plan_pyramid p)) [
      | inl (size, planned) ↦
          let request = entry_request p size in
          let answer = p.execute_entry request x in
          let h' : ◌≡◌ {A = Result PyramidError (TicketRow D × Db D) × X}
              (settle_pyramid db p size answer.0 id now, answer.1) (ok (child, db'), x') =
            subst (λ r. enter_pyramid db p id now r x ≡ (ok (child, db'), x')) planned h in
          let (entry, answered, success, same, tables) =
            settle_pyramid-tickets size answer.0 child db'
              (ap (λ (q : Result PyramidError (TicketRow D × Db D) × X). q.0) h') in
          (
            size,
            entry,
            planned,
            ground (
              arith,
              answered,
              ap (λ (q : Result PyramidError (TicketRow D × Db D) × X). q.1) h',
            ),
            success,
            same,
            tables,
          )
      | inr (e, planned) ↦ cc
    ]

    -- A pyramid entry that returns was allowed, has sent one order, to the market of the parent, of the
    -- size that the sizer gives for the current balance, which the executor took, and has written the
    -- child ticket of that size and the raised count and nothing else.
    pub execute_pyramid-Made :
        (x x' : X) (child : TicketRow D) (db' : Db D)
        → execute_pyramid db p id now x ≡ (ok (child, db'), x')
        → ((can_pyramid p.parent_ticket p.config).allowed ≡ true)
          × ((size : SizeResult D) × (request : EntryRequest D S) × (entry : EntryResult D)
              × IsSized size
              × IsOrderedFor size request
              × (p.execute_entry request x ≡ (ok entry, x'))
              × (entry.success ≡ true)
              × IsChild size entry child
              × (db' ≡ record db { tickets = tickets_with_child db p child now }))
    execute_pyramid-Made x x' child db' h =
        let (size, entry, planned, sent, success, same, tables) =
          execute_pyramid-tables x x' child db' h in
        let (allowed, is_sized) = plan_pyramid-IsSized size planned in
        (
          allowed,
          (
            size,
            entry_request p size,
            entry,
            is_sized,
            (refl, refl, refl, refl, refl, refl, refl),
            sent,
            success,
            subst (IsChild size entry) (sym same) (child_ticket-IsChild size entry),
            tables,
          ),
        )
