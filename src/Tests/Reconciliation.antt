-- ===== src/Tests/Reconciliation.antt =====
-- One position with a ticket, one without, and one that is pending.
use combine_trade.Prelude.{ℕ, false, List, [], ◌∷◌, none, Text, codes, IsIn, All, ◌≡◌, ◌↔◌}
use combine_trade.Prelude.Int.{ℤ, pos}
use combine_trade.Core.Types.{binance, Direction, long, short}
use combine_trade.Reconciliation.Comparator.{
  ExchangePosition, TicketSnapshot, compare_positions, is_recent_ticket, position_key, has_key,
}
use combine_trade.Reconciliation.Comparator.Tickets.{Tracks, matched_iff, orphaned_iff}
use combine_trade.Reconciliation.Comparator.Positions.{Excuses, unmatched_iff}

abbrev position : Text → Direction → ExchangePosition ℤ
position symbol side = record {
  symbol = symbol;
  exchange = binance;
  side = side;
  size = pos 10_000;
  entry_price = pos 1_000_000;
  unrealized_pnl = pos 0;
  leverage = 3;
  liquidation_price = none;
}

abbrev positions : List (ExchangePosition ℤ)
positions =
    position (codes "BTCUSDT") long
    ∷ position (codes "ETHUSDT") short
    ∷ position (codes "XRPUSDT") long
    ∷ []

abbrev ticket : Text → Direction → ℕ → TicketSnapshot
ticket symbol direction created_at = record {
  id = symbol;
  symbol = symbol;
  exchange = binance;
  direction = direction;
  state = codes "INITIAL";
  created_at = created_at;
}

abbrev tickets : List TicketSnapshot
tickets = ticket (codes "BTCUSDT") long 1_000 ∷ ticket (codes "ETHUSDT") long 9_000 ∷ []

abbrev pending : List Text
pending = codes "XRPUSDT:binance" ∷ []

orphaned_iff_example :
    IsIn
      (ticket (codes "ETHUSDT") long 9_000)
      (compare_positions positions tickets pending 10_000).orphaned
    ↔ (IsIn (ticket (codes "ETHUSDT") long 9_000) tickets
        × (is_recent_ticket (ticket (codes "ETHUSDT") long 9_000) 10_000 ≡ false)
        × All (λ p. ¬ Tracks (ticket (codes "ETHUSDT") long 9_000) p) positions)
orphaned_iff_example =
    orphaned_iff positions tickets pending 10_000 (ticket (codes "ETHUSDT") long 9_000)

matched_iff_example :
    IsIn
      (position (codes "BTCUSDT") long, ticket (codes "BTCUSDT") long 1_000)
      (compare_positions positions tickets pending 10_000).matched
    ↔ (IsIn (position (codes "BTCUSDT") long) positions
        × IsIn (ticket (codes "BTCUSDT") long 1_000) tickets
        × (is_recent_ticket (ticket (codes "BTCUSDT") long 1_000) 10_000 ≡ false)
        × Tracks (ticket (codes "BTCUSDT") long 1_000) (position (codes "BTCUSDT") long))
matched_iff_example =
    matched_iff positions tickets pending 10_000 (position (codes "BTCUSDT") long)
      (ticket (codes "BTCUSDT") long 1_000)

unmatched_iff_example :
    IsIn
      (position (codes "ETHUSDT") short)
      (compare_positions positions tickets pending 10_000).unmatched
    ↔ (IsIn (position (codes "ETHUSDT") short) positions
        × (has_key pending (position_key (codes "ETHUSDT") binance) ≡ false)
        × All (λ t. ¬ Excuses 10_000 (position (codes "ETHUSDT") short) t) tickets)
unmatched_iff_example =
    unmatched_iff positions tickets pending 10_000 (position (codes "ETHUSDT") short)
