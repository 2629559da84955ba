-- ===== src/Tests/Tickets.antt =====
-- A market that is watched, opened, moved on and closed, with decimals of four places.
use combine_trade.Prelude.{
  ℕ, ◌+◌, ◌≤◌, true, List, [], ◌∷◌, none, some, codes, length, ok, ◌≡◌, refl,
}
use combine_trade.Prelude.Int.{ℤ, pos}
use combine_trade.Core.Types.{
  double_b, binance, FsmState, idle, watching, has_position, TicketState, initial, tp1_hit, closed,
  long, m5, TradeResult, CloseReason,
}
use combine_trade.Core.Fixed.{fixed}
use combine_trade.Positions.Fsm.{
  can_transition, get_next_state, transition_map, event_map, tp1_hit_event, close_event,
  validate_transition,
}
use combine_trade.Positions.Fsm.Runs.{run_events-rank, run_events, rank}
use combine_trade.Positions.Tickets.{
  SymbolStateRow, TicketRow, Db, CreateTicketParams, CloseTicketParams, analysis,
}
use combine_trade.Positions.Tickets.Operations.{
  create_ticket, insert_ticket, transition_ticket, close_ticket, get_active_ticket, label_vector,
}
use combine_trade.Positions.Tickets.Counts.{count_active}
use combine_trade.Positions.Tickets.Consistency.{IsConsistent, count_in}
use combine_trade.Positions.Tickets.Opening.{create_ticket-IsConsistent, create_ticket-watching}
use combine_trade.Positions.Tickets.Closing.{
  transition_ticket-IsConsistent, close_ticket-IsConsistent,
}

abbrev row : FsmState → ℕ → SymbolStateRow ℤ
row state at = record {
  id = codes "row";
  symbol = codes "BTCUSDT";
  exchange = binance;
  fsm_state = state;
  execution_mode = analysis;
  daily_bias = none;
  daily_open = none;
  session_box_high = none;
  session_box_low = none;
  losses_today = some (pos 0);
  losses_session = some 0;
  losses_this_1h_5m = some 0;
  losses_this_1h_1m = some 0;
  updated_at = at;
}

abbrev params : CreateTicketParams ℤ
params = record {
  symbol = codes "BTCUSDT";
  exchange = binance;
  signal_id = codes "signal";
  timeframe = m5;
  direction = long;
  entry_price = pos 1_000_000;
  sl_price = pos 900_000;
  size = pos 20_000;
  leverage = 2;
  tp1_price = none;
  tp2_price = none;
}

abbrev ticket : TicketState → ℕ → TicketRow ℤ
ticket state at = record {
  id = codes "ticket";
  symbol = codes "BTCUSDT";
  exchange = binance;
  signal_id = codes "signal";
  parent_ticket_id = none;
  timeframe = m5;
  direction = long;
  state = state;
  entry_price = pos 1_000_000;
  sl_price = pos 900_000;
  current_sl_price = pos 900_000;
  size = pos 20_000;
  remaining_size = pos 20_000;
  leverage = 2;
  tp1_price = none;
  tp2_price = none;
  pyramid_count = some 0;
  opened_at = 5_000;
  closed_at = none;
  close_reason = none;
  result = none;
  pnl = none;
  pnl_pct = none;
  hold_duration_sec = none;
  updated_at = at;
}

abbrev db_with : List (TicketRow ℤ) → SymbolStateRow ℤ → Db ℤ
db_with ts r = record {
  symbol_states = r ∷ [];
  tickets = ts;
  signals = record { id = codes "signal"; signal_type = double_b; safety_passed = true } ∷ [];
  signal_details = [];
  vectors = [];
}

abbrev watched_db : Db ℤ
watched_db = db_with [] (row watching 1_000)

abbrev opened_db : Db ℤ
opened_db = db_with (ticket initial 5_000 ∷ []) (row has_position 5_000)

abbrev moved_db : Db ℤ
moved_db = db_with (ticket tp1_hit 6_000 ∷ []) (row has_position 5_000)

abbrev close_params : CloseTicketParams ℤ
close_params = record {
  close_reason = CloseReason.sl;
  result = TradeResult.loss;
  pnl = pos 10_000;
  vector_id = none;
  labeling_deps = none;
}

abbrev closed_ticket : TicketRow ℤ
closed_ticket = record (ticket closed 9_500) {
  closed_at = some 9_500;
  close_reason = some CloseReason.sl;
  result = some TradeResult.loss;
  pnl = some (pos 10_000);
  pnl_pct = some (pos 50);
  hold_duration_sec = some (pos 4);
}

abbrev closed_db : Db ℤ
closed_db = db_with (closed_ticket ∷ []) (row idle 9_500)

watched-IsConsistent : IsConsistent watched_db
unfolding count_active
watched-IsConsistent = record { ids = tt; rows = (tt, tt); agree = (refl, tt) }

opened-IsConsistent : IsConsistent opened_db
unfolding count_active
opened-IsConsistent = record { ids = (tt, tt); rows = (tt, tt); agree = (refl, tt) }

create_ticket-IsConsistent_example : IsConsistent opened_db
unfolding create_ticket insert_ticket fixed
create_ticket-IsConsistent_example =
    create_ticket-IsConsistent watched_db opened_db params (codes "ticket") 5_000
      (ticket initial 5_000) watched-IsConsistent tt refl

create_ticket-watching_example :
    (t : TicketRow ℤ) × (db' : Db ℤ) × (create_ticket watched_db params (codes "ticket") 5_000
      ≡ ok (t, db'))
    × (get_active_ticket db' (codes "BTCUSDT") binance ≡ some t)
    × (t.state ≡ initial)
    × (count_in db' (codes "BTCUSDT") binance ≡ 1)
create_ticket-watching_example =
    create_ticket-watching watched_db params (codes "ticket") 5_000 (row watching 1_000)
      watched-IsConsistent refl refl refl refl

transition_ticket-IsConsistent_example : IsConsistent moved_db
unfolding transition_ticket validate_transition can_transition transition_map
transition_ticket-IsConsistent_example =
    transition_ticket-IsConsistent opened_db moved_db (codes "ticket") tp1_hit 6_000
      (ticket tp1_hit 6_000) opened-IsConsistent refl refl

close_ticket-IsConsistent_example : IsConsistent closed_db
unfolding close_ticket validate_transition can_transition transition_map label_vector fixed
close_ticket-IsConsistent_example =
    close_ticket-IsConsistent opened_db closed_db (codes "ticket") close_params 9_500 closed_ticket
      opened-IsConsistent refl

run_events-rank_example : rank initial + length (tp1_hit_event ∷ close_event ∷ []) ≤ rank closed
unfolding run_events get_next_state event_map
run_events-rank_example = run_events-rank initial closed (tp1_hit_event ∷ close_event ∷ []) refl
