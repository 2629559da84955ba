-- ===== src/Reconciliation/Comparator/Tickets.antt =====
-- Which tickets are matched and which are orphaned.
use combine_trade.Prelude.{
  ℕ, true, false, not, List, [], ◌∷◌, Text, eq_text, eq_text_iff, IsIn, IsIn-append, IsIn-filter,
  All, map, ◌≡◌, ◌↔◌, ◌⊎◌, refl, ◌∙◌, arith,
}
use combine_trade.Reconciliation.Comparator.{
  ExchangePosition, TicketSnapshot, ReconciliationResult, TicketIndex, is_recent_ticket,
  comparable_tickets, recent_ticket_keys, index_tickets, tickets_at, classify_position,
  classify_positions, orphaned_tickets, compare_positions, ticket_key, side_key, has_key, pair_all,
  dir_key,
}
use combine_trade.Reconciliation.Comparator.Keys.{dir_key_injective}
use combine_trade.Reconciliation.Comparator.Index.{tickets_at-filter}

pub has_key-IsIn : (keys : List Text) (k : Text) → (has_key keys k ≡ true) ↔ IsIn k keys
has_key-IsIn [] k = ground arith
has_key-IsIn (j ∷ keys) k = ground (arith, eq_text_iff k j, has_key-IsIn keys k)

pub comparable_iff :
    (t : TicketSnapshot) (ts : List TicketSnapshot) (snapshot : ℕ)
    → IsIn t (comparable_tickets ts snapshot) ↔ (IsIn t ts × (is_recent_ticket t snapshot ≡ false))
unfolding comparable_tickets
comparable_iff t ts snapshot =
    ground (arith, IsIn-filter t (λ u. not (is_recent_ticket u snapshot)) ts)

module _ {D : Type 0} where
  -- The ticket stands for the position.
  abbrev pub Tracks : TicketSnapshot → ExchangePosition D → Type 0
  Tracks t p = (t.symbol ≡ p.symbol) × (t.exchange ≡ p.exchange) × (t.direction ≡ p.side)

  pub ticket_key-Tracks :
      (t : TicketSnapshot) (p : ExchangePosition D) → (ticket_key t ≡ side_key p) ↔ Tracks t p
  unfolding dir_key
  ticket_key-Tracks t p = (
    dir_key_injective t.symbol p.symbol t.exchange p.exchange t.direction p.side,
    λ (a, b, c). rw (a, b, c),
  )

  orphaned-classify :
      (pk rk : List Text) (index : TicketIndex) (orphans : List TicketSnapshot)
      (ps : List (ExchangePosition D))
      → (classify_positions pk rk index orphans ps).orphaned ≡ orphans
  unfolding classify_positions
  orphaned-classify pk rk index orphans [] = refl
  orphaned-classify pk rk index orphans (p ∷ ps) =
      orphaned-step (tickets_at (side_key p) index) _ ∙ orphaned-classify pk rk index orphans ps
    where
      orphaned-step :
          (ts : List TicketSnapshot) (rest : ReconciliationResult D)
          → (classify_position pk rk p ts rest).orphaned ≡ rest.orphaned
      orphaned-step [] rest = ground arith
      orphaned-step (t ∷ ts) rest = refl

  no_key_iff :
      (t : TicketSnapshot) (ps : List (ExchangePosition D))
      → (has_key (map side_key ps) (ticket_key t) ≡ false) ↔ All (λ p. ¬ Tracks t p) ps
  no_key_iff t [] = ground arith
  no_key_iff t (p ∷ ps) =
      let same = ticket_key-Tracks t p in
      ground (arith, eq_text_iff (ticket_key t) (side_key p), same.0, same.1, no_key_iff t ps)

  -- A ticket is orphaned exactly when it is active, not newer than the snapshot, and stands for no
  -- position of the exchange.
  pub orphaned_iff :
      (ps : List (ExchangePosition D)) (ts : List TicketSnapshot) (pending_symbols : List Text)
      (snapshot : ℕ) (t : TicketSnapshot)
      → IsIn t (compare_positions ps ts pending_symbols snapshot).orphaned
        ↔ (IsIn t ts × (is_recent_ticket t snapshot ≡ false) × All (λ p. ¬ Tracks t p) ps)
  unfolding compare_positions orphaned_tickets
  orphaned_iff ps ts pending_symbols snapshot t =
      let comparable = comparable_tickets ts snapshot in
      rw
        (orphaned-classify pending_symbols (recent_ticket_keys ts snapshot)
          (index_tickets [] comparable) (orphaned_tickets comparable ps) ps)
        (ground (
          arith,
          IsIn-filter t (λ u. not (has_key (map side_key ps) (ticket_key u))) comparable,
          comparable_iff t ts snapshot,
          no_key_iff t ps,
        ))

  IsIn-pair_all :
      (p q : ExchangePosition D) (t : TicketSnapshot) (ts : List TicketSnapshot)
      → IsIn (q, t) (pair_all p ts) ↔ ((q ≡ p) × IsIn t ts)
  IsIn-pair_all p q t [] = ground arith
  IsIn-pair_all p q t (u ∷ ts) = ground (arith, IsIn-pair_all p q t ts)

  matched-step :
      (pk rk : List Text) (p q : ExchangePosition D) (t : TicketSnapshot) (ts : List TicketSnapshot)
      (rest : ReconciliationResult D)
      → IsIn (q, t) (classify_position pk rk p ts rest).matched
        ↔ (((q ≡ p) × IsIn t ts) ⊎ IsIn (q, t) rest.matched)
  unfolding classify_position
  matched-step pk rk p q t [] rest = ground arith
  matched-step pk rk p q t (u ∷ ts) rest =
      ground
        (arith, IsIn-append (q, t) (pair_all p (u ∷ ts)) rest.matched, IsIn-pair_all p q t (u ∷ ts))

  matched-classify :
      (pk rk : List Text) (index : TicketIndex) (orphans : List TicketSnapshot)
      (ps : List (ExchangePosition D)) (q : ExchangePosition D) (t : TicketSnapshot)
      → IsIn (q, t) (classify_positions pk rk index orphans ps).matched
        ↔ (IsIn q ps × IsIn t (tickets_at (side_key q) index))
  unfolding classify_positions
  matched-classify pk rk index orphans [] q t = ground arith
  matched-classify pk rk index orphans (p ∷ ps) q t = ground (
    arith,
    matched-step pk rk p q t (tickets_at (side_key p) index)
        (classify_positions pk rk index orphans ps),
    matched-classify pk rk index orphans ps q t,
  )

  pub tickets_at_iff :
      (ts : List TicketSnapshot) (snapshot : ℕ) (p : ExchangePosition D) (t : TicketSnapshot)
      → IsIn t (tickets_at (side_key p) (index_tickets [] (comparable_tickets ts snapshot)))
        ↔ (IsIn t ts × (is_recent_ticket t snapshot ≡ false) × Tracks t p)
  tickets_at_iff ts snapshot p t =
      let comparable = comparable_tickets ts snapshot in
      let same = ticket_key-Tracks t p in
      rw (tickets_at-filter (side_key p) comparable) (
        ground (
          arith,
          IsIn-filter t (λ u. eq_text (ticket_key u) (side_key p)) comparable,
          comparable_iff t ts snapshot,
          eq_text_iff (ticket_key t) (side_key p),
          same.0,
          same.1,
        ))

  -- A position and a ticket are matched exactly when both are given, the ticket is not newer than the
  -- snapshot, and it stands for the position.
  pub matched_iff :
      (ps : List (ExchangePosition D)) (ts : List TicketSnapshot) (pending_symbols : List Text)
      (snapshot : ℕ) (p : ExchangePosition D) (t : TicketSnapshot)
      → IsIn (p, t) (compare_positions ps ts pending_symbols snapshot).matched
        ↔ (IsIn p ps × IsIn t ts × (is_recent_ticket t snapshot ≡ false) × Tracks t p)
  unfolding compare_positions
  matched_iff ps ts pending_symbols snapshot p t = ground (
    arith,
    matched-classify pending_symbols (recent_ticket_keys ts snapshot)
        (index_tickets [] (comparable_tickets ts snapshot))
        (orphaned_tickets (comparable_tickets ts snapshot) ps) ps p t,
    tickets_at_iff ts snapshot p t,
  )
