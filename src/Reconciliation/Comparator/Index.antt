-- ===== src/Reconciliation/Comparator/Index.antt =====
-- The index of the tickets gives, at each key, the tickets of that key in their order.
use mathlib.Core.List.{append-nil, append_assoc}
use combine_trade.Prelude.{
  List, [], ◌∷◌, ◌++◌, Text, eq_text, eq_text_iff, filter, if◌then◌else◌, ◌≡◌, sym, ◌∙◌, arith,
  Bool-cases, inl, inr,
}
use combine_trade.Reconciliation.Comparator.{
  TicketSnapshot, TicketIndex, tickets_at, add_ticket, index_tickets, ticket_key,
}

tickets_at-add_ticket :
    (key j : Text) (t : TicketSnapshot) (index : TicketIndex)
    → tickets_at key (add_ticket j t index)
      ≡ (if eq_text j key then tickets_at key index ++ (t ∷ []) else tickets_at key index)
unfolding tickets_at add_ticket
tickets_at-add_ticket key j t [] = ground arith
tickets_at-add_ticket key j t ((k, ts) ∷ index) = ground (
  arith,
  eq_text_iff k j,
  eq_text_iff k key,
  eq_text_iff j key,
  tickets_at-add_ticket key j t index,
)

tickets_at-index_tickets :
    (key : Text) (index : TicketIndex) (ts : List TicketSnapshot)
    → tickets_at key (index_tickets index ts)
      ≡ tickets_at key index ++ filter (λ t. eq_text (ticket_key t) key) ts
unfolding index_tickets
tickets_at-index_tickets key index [] = sym (append-nil (tickets_at key index))
tickets_at-index_tickets key index (t ∷ ts) =
    tickets_at-index_tickets key (add_ticket (ticket_key t) t index) ts
    ∙ elim (Bool-cases (eq_text (ticket_key t) key)) [
      | inl e ↦
          rw (tickets_at-add_ticket key (ticket_key t) t index, e)
            (append_assoc (tickets_at key index) (t ∷ []) _)
      | inr e ↦ rw (tickets_at-add_ticket key (ticket_key t) t index, e)
    ]

pub tickets_at-filter :
    (key : Text) (ts : List TicketSnapshot)
    → tickets_at key (index_tickets [] ts) ≡ filter (λ t. eq_text (ticket_key t) key) ts
unfolding tickets_at
tickets_at-filter key ts = tickets_at-index_tickets key [] ts
