-- ===== src/Reconciliation/Comparator.antt =====
-- reconciliation/comparator.ts. The map from direction keys to tickets is an association list, in
-- the order in which its keys were added; the set of pending keys is a list.
pub mod Keys
pub mod Index
pub mod Tickets
pub mod Positions
use combine_trade.Prelude.{
  ℕ, Bool, true, false, not, List, [], ◌∷◌, ◌++◌, Option, none, some, Text, codes, eq_text, any,
  filter, map, if◌then◌else◌, ltb,
}
use combine_trade.Core.Types.{Exchange, binance, okx, bitget, mexc, Direction, long, short}

pub record ExchangePosition (D : Type 0) : Type 0 where
  pub symbol : Text
  pub exchange : Exchange
  pub side : Direction
  pub size : D
  pub entry_price : D
  pub unrealized_pnl : D
  pub leverage : ℕ
  pub liquidation_price : Option D

pub record TicketSnapshot : Type 0 where
  pub id : Text
  pub symbol : Text
  pub exchange : Exchange
  pub direction : Direction
  pub state : Text
  pub created_at : ℕ

pub data ExclusionReason : Type 0 where
  pending recent_ticket : ExclusionReason

pub record ReconciliationResult (D : Type 0) : Type 0 where
  pub matched : List (ExchangePosition D × TicketSnapshot)
  pub unmatched : List (ExchangePosition D)
  pub orphaned : List TicketSnapshot
  pub excluded : List (ExchangePosition D × ExclusionReason)

abbrev pub exchange_name : Exchange → Text
exchange_name binance = codes "binance"
exchange_name okx = codes "okx"
exchange_name bitget = codes "bitget"
exchange_name mexc = codes "mexc"

abbrev pub direction_name : Direction → Text
direction_name long = codes "LONG"
direction_name short = codes "SHORT"

-- `${symbol}:${exchange}`
unfoldable pub position_key : Text → Exchange → Text
position_key symbol exchange = symbol ++ (codes ":" ++ exchange_name exchange)

-- `${key}:${direction}`
unfoldable pub dir_key : Text → Exchange → Direction → Text
unfolding position_key
dir_key symbol exchange direction =
    position_key symbol exchange ++ (codes ":" ++ direction_name direction)

-- Strictly after the snapshot.
unfoldable pub is_recent_ticket : TicketSnapshot → ℕ → Bool
is_recent_ticket ticket snapshot_time = ltb snapshot_time ticket.created_at

abbrev pub ticket_key : TicketSnapshot → Text
ticket_key t = dir_key t.symbol t.exchange t.direction

abbrev pub side_key : {D : Type 0} → ExchangePosition D → Text
side_key p = dir_key p.symbol p.exchange p.side

-- `set.has(key)`
abbrev pub has_key : List Text → Text → Bool
has_key keys key = any (eq_text key) keys

abbrev pub TicketIndex : Type 0
TicketIndex = List (Text × List TicketSnapshot)

-- `map.get(key)`, an empty list where the key is undefined: the code tests for both together.
unfoldable pub tickets_at : Text → TicketIndex → List TicketSnapshot
tickets_at key [] = []
tickets_at key ((k, ts) ∷ index) = if eq_text k key then ts else tickets_at key index

unfoldable pub add_ticket : Text → TicketSnapshot → TicketIndex → TicketIndex
add_ticket key t [] = (key, t ∷ []) ∷ []
add_ticket key t ((k, ts) ∷ index) =
    if eq_text k key then (k, ts ++ (t ∷ [])) ∷ index else (k, ts) ∷ add_ticket key t index

unfoldable pub index_tickets : TicketIndex → List TicketSnapshot → TicketIndex
unfolding add_ticket
index_tickets index [] = index
index_tickets index (t ∷ ts) = index_tickets (add_ticket (ticket_key t) t index) ts

-- The tickets old enough to compare.
unfoldable pub comparable_tickets : List TicketSnapshot → ℕ → List TicketSnapshot
unfolding is_recent_ticket
comparable_tickets tickets snapshot_time =
    filter (λ t. not (is_recent_ticket t snapshot_time)) tickets

unfoldable pub recent_ticket_keys : List TicketSnapshot → ℕ → List Text
unfolding is_recent_ticket
recent_ticket_keys tickets snapshot_time =
    map (λ t. position_key t.symbol t.exchange)
      (filter (λ t. is_recent_ticket t snapshot_time) tickets)

module _ {D : Type 0} where
  abbrev pub pair_all :
      ExchangePosition D → List TicketSnapshot → List (ExchangePosition D × TicketSnapshot)
  pair_all p [] = []
  pair_all p (t ∷ ts) = (p, t) ∷ pair_all p ts

  -- The branch for one position, in front of the results of the positions after it.
  unfoldable pub classify_position :
      List Text
      → List Text
      → ExchangePosition D
      → List TicketSnapshot
      → ReconciliationResult D
      → ReconciliationResult D
  classify_position pending_keys recent_keys p (t ∷ ts) rest = record rest {
    matched = pair_all p (t ∷ ts) ++ rest.matched;
  }
  classify_position pending_keys recent_keys p [] rest =
      if has_key pending_keys (position_key p.symbol p.exchange)
      then record rest { excluded = (p, pending) ∷ rest.excluded }
      else if has_key recent_keys (position_key p.symbol p.exchange)
      then record rest { excluded = (p, recent_ticket) ∷ rest.excluded }
      else record rest { unmatched = p ∷ rest.unmatched }

  abbrev pub no_positions : List TicketSnapshot → ReconciliationResult D
  no_positions orphans = record { matched = []; unmatched = []; orphaned = orphans; excluded = [] }

  unfoldable pub classify_positions :
      List Text
      → List Text
      → TicketIndex
      → List TicketSnapshot
      → List (ExchangePosition D)
      → ReconciliationResult D
  unfolding classify_position tickets_at
  classify_positions pending_keys recent_keys index orphans [] = no_positions orphans
  classify_positions pending_keys recent_keys index orphans (p ∷ ps) =
      classify_position pending_keys recent_keys p (tickets_at (side_key p) index)
        (classify_positions pending_keys recent_keys index orphans ps)

  -- Comparable tickets that no position of the exchange has the key of.
  unfoldable pub orphaned_tickets :
      List TicketSnapshot → List (ExchangePosition D) → List TicketSnapshot
  orphaned_tickets tickets ps = filter (λ t. not (has_key (map side_key ps) (ticket_key t))) tickets

  unfoldable pub compare_positions :
      List (ExchangePosition D) → List TicketSnapshot → List Text → ℕ → ReconciliationResult D
  unfolding comparable_tickets recent_ticket_keys index_tickets classify_positions orphaned_tickets
  compare_positions exchange_positions active_tickets pending_symbols snapshot_time =
      let comparable = comparable_tickets active_tickets snapshot_time in
      classify_positions pending_symbols (recent_ticket_keys active_tickets snapshot_time)
        (index_tickets [] comparable) (orphaned_tickets comparable exchange_positions)
        exchange_positions
