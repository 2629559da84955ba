-- ===== src/Reconciliation/Comparator/Positions.antt =====
-- Which positions are to be closed in panic, and that every position is classified.
use combine_trade.Prelude.{
  ℕ, true, false, List, [], ◌∷◌, Text, eq_text, eq_text_iff, IsIn, All, filter, ◌≡◌, ◌↔◌, ◌⊎◌,
  arith,
}
use combine_trade.Reconciliation.Comparator.{
  ExchangePosition, TicketSnapshot, ReconciliationResult, TicketIndex, is_recent_ticket,
  comparable_tickets, recent_ticket_keys, index_tickets, tickets_at, classify_position,
  classify_positions, orphaned_tickets, compare_positions, side_key, has_key, position_key,
  ticket_key,
}
use combine_trade.Reconciliation.Comparator.Keys.{position_key_injective}
use combine_trade.Reconciliation.Comparator.Index.{tickets_at-filter}
use combine_trade.Reconciliation.Comparator.Tickets.{ticket_key-Tracks}

module _ {D : Type 0} where
  abbrev market_key : ExchangePosition D → Text
  market_key p = position_key p.symbol p.exchange

  -- The ticket speaks for the position: it stands for it, or is newer than the snapshot and on its
  -- market.
  abbrev pub Excuses : ℕ → ExchangePosition D → TicketSnapshot → Type 0
  Excuses snapshot p t =
      (t.symbol ≡ p.symbol)
      × (t.exchange ≡ p.exchange)
      × ((is_recent_ticket t snapshot ≡ true) ⊎ (t.direction ≡ p.side))

  unmatched-step :
      (pk rk : List Text) (p q : ExchangePosition D) (ts : List TicketSnapshot)
      (rest : ReconciliationResult D)
      → IsIn q (classify_position pk rk p ts rest).unmatched ↔ (
          ((q ≡ p)
            × (ts ≡ [])
            × (has_key pk (market_key q) ≡ false)
            × (has_key rk (market_key q) ≡ false))
          ⊎ IsIn q rest.unmatched)
  unfolding classify_position
  unmatched-step pk rk p q [] rest = ground arith
  unmatched-step pk rk p q (t ∷ ts) rest = ground arith

  unmatched-classify :
      (pk rk : List Text) (index : TicketIndex) (orphans : List TicketSnapshot)
      (ps : List (ExchangePosition D)) (q : ExchangePosition D)
      → IsIn q (classify_positions pk rk index orphans ps).unmatched ↔ (
          IsIn q ps
          × (tickets_at (side_key q) index ≡ [])
          × (has_key pk (market_key q) ≡ false)
          × (has_key rk (market_key q) ≡ false))
  unfolding classify_positions
  unmatched-classify pk rk index orphans [] q = ground arith
  unmatched-classify pk rk index orphans (p ∷ ps) q = ground (
    arith,
    unmatched-step pk rk p q (tickets_at (side_key p) index)
        (classify_positions pk rk index orphans ps),
    unmatched-classify pk rk index orphans ps q,
  )

  position_key-same :
      (t : TicketSnapshot) (p : ExchangePosition D)
      → (t.symbol ≡ p.symbol) × (t.exchange ≡ p.exchange)
      → market_key p ≡ position_key t.symbol t.exchange
  position_key-same t p (a, b) = rw (a, b)

  quiet_iff :
      (snapshot : ℕ) (p : ExchangePosition D) (ts : List TicketSnapshot)
      → ((filter (λ u. eq_text (ticket_key u) (side_key p)) (comparable_tickets ts snapshot) ≡ [])
          × (has_key (recent_ticket_keys ts snapshot) (market_key p) ≡ false))
        ↔ All (λ t. ¬ Excuses snapshot p t) ts
  unfolding comparable_tickets recent_ticket_keys
  quiet_iff snapshot p [] = ground arith
  quiet_iff snapshot p (t ∷ ts) =
      let same = ticket_key-Tracks t p in
      ground (
        arith,
        quiet_iff snapshot p ts,
        eq_text_iff (ticket_key t) (side_key p),
        same.0,
        same.1,
        eq_text_iff (market_key p) (position_key t.symbol t.exchange),
        position_key_injective p.symbol t.symbol p.exchange t.exchange,
        position_key-same t p,
      )

  -- A position is to be closed in panic exactly when the exchange reports it, no order is pending on
  -- its market, and no active ticket speaks for it: none of its market and direction, and none of
  -- its market that is newer than the snapshot.
  pub unmatched_iff :
      (ps : List (ExchangePosition D)) (ts : List TicketSnapshot) (pending_symbols : List Text)
      (snapshot : ℕ) (p : ExchangePosition D)
      → IsIn p (compare_positions ps ts pending_symbols snapshot).unmatched ↔ (
          IsIn p ps
          × (has_key pending_symbols (position_key p.symbol p.exchange) ≡ false)
          × All (λ t. ¬ Excuses snapshot p t) ts)
  unfolding compare_positions
  unmatched_iff ps ts pending_symbols snapshot p =
      let comparable = comparable_tickets ts snapshot in
      ground (
        arith,
        unmatched-classify pending_symbols (recent_ticket_keys ts snapshot)
            (index_tickets [] comparable) (orphaned_tickets comparable ps) ps p,
        tickets_at-filter (side_key p) comparable,
        quiet_iff snapshot p ts,
      )
