-- ===== src/Tests/Pyramid.antt =====
-- A pyramid entry for a ticket that has hit its first target, and the close of that ticket.
use combine_trade.Prelude.{◌≤◌, true, false, List, [], ◌∷◌, none, some, codes, ok, All, ◌≡◌, refl}
use combine_trade.Prelude.Int.{ℤ, pos}
use combine_trade.Core.Types.{
  double_b, binance, idle, has_position, TicketState, initial, tp1_hit, closed, long, m5,
  TradeResult, CloseReason,
}
use combine_trade.Core.Fixed.{fixed}
use combine_trade.Positions.Fsm.{validate_transition, can_transition, transition_map}
use combine_trade.Positions.Sizer.{SizeResult, get_risk_pct, calculate_size}
use combine_trade.Positions.Tickets.{TicketRow, Db, CloseTicketParams, analysis, row_at}
use combine_trade.Positions.Tickets.Operations.{close_ticket, label_vector}
use combine_trade.Positions.Tickets.Consistency.{count_in}
use combine_trade.Positions.Pyramid.{ExecutePyramidParams, EntryRequest, EntryResult, can_pyramid}
use combine_trade.Positions.Pyramid.Entry.{entry_request, execute_pyramid}
use combine_trade.Positions.Pyramid.Child.{
  IsSized, IsOrderedFor, IsChild, tickets_with_child, execute_pyramid-Made,
}
use combine_trade.Positions.Pyramid.Stranded.{close_ticket-execute_pyramid}

abbrev World : Type 0
World = List (EntryRequest ℤ ℤ)

abbrev parent_in : TicketState → TicketRow ℤ
parent_in state = record {
  id = codes "parent";
  symbol = codes "BTCUSDT";
  exchange = binance;
  signal_id = codes "s1";
  parent_ticket_id = none;
  timeframe = m5;
  direction = long;
  state = state;
  entry_price = pos 1_000_000;
  sl_price = pos 900_000;
  current_sl_price = pos 1_000_000;
  size = pos 20_000;
  remaining_size = pos 10_000;
  leverage = 2;
  tp1_price = none;
  tp2_price = none;
  pyramid_count = some 0;
  opened_at = 5_000;
  closed_at = none;
  close_reason = none;
  result = none;
  pnl = none;
  pnl_pct = none;
  hold_duration_sec = none;
  updated_at = 6_000;
}

abbrev filled : EntryResult ℤ
filled = record { success = true; filled_price = some (pos 1_001_000); abort_reason = none }

abbrev params_for : TicketState → ExecutePyramidParams ℤ ℤ World
params_for state = record {
  parent_ticket = parent_in state;
  signal = record {
    id = codes "s2";
    entry_price = pos 1_000_000;
    sl_price = pos 900_000;
    direction = long;
    timeframe = m5;
    tp1_price = none;
    tp2_price = none;
  };
  balance = pos 1_000_000;
  exchange_info = record {
    symbol = codes "BTCUSDT";
    tick_size = pos 10;
    min_order_size = pos 100;
    max_leverage = 50;
    contract_size = pos 10_000;
  };
  slippage_config = pos 10;
  config = record { max_pyramid_count = 2 };
  execute_entry = λ request x. (ok filled, request ∷ x);
}

abbrev params : ExecutePyramidParams ℤ ℤ World
params = params_for tp1_hit

abbrev sized : SizeResult ℤ
sized = record {
  size = pos 3_000;
  leverage = 1;
  risk_amount = pos 30_000;
  max_loss = pos 30_000;
  adjusted_for_lev_cap = false;
}

abbrev db : Db ℤ
db = record {
  symbol_states =
      record {
        id = codes "row";
        symbol = codes "BTCUSDT";
        exchange = binance;
        fsm_state = has_position;
        execution_mode = analysis;
        daily_bias = none;
        daily_open = none;
        session_box_high = none;
        session_box_low = none;
        losses_today = some (pos 0);
        losses_session = some 0;
        losses_this_1h_5m = some 0;
        losses_this_1h_1m = some 0;
        updated_at = 5_000;
      }
      ∷ [];
  tickets = parent_in tp1_hit ∷ [];
  signals =
      record { id = codes "s1"; signal_type = double_b; safety_passed = true }
      ∷ record { id = codes "s2"; signal_type = double_b; safety_passed = true }
      ∷ [];
  signal_details = [];
  vectors = [];
}

abbrev child : TicketRow ℤ
child = record (parent_in initial) {
  id = codes "child";
  signal_id = codes "s2";
  parent_ticket_id = some (codes "parent");
  entry_price = pos 1_001_000;
  current_sl_price = pos 900_000;
  size = pos 3_000;
  remaining_size = pos 3_000;
  leverage = 1;
  opened_at = 7_000;
  updated_at = 7_000;
}

abbrev raised : TicketRow ℤ
raised = record (parent_in tp1_hit) { pyramid_count = some 1; updated_at = 7_000 }

abbrev db_after : Db ℤ
db_after = record db { tickets = child ∷ raised ∷ [] }

abbrev close_params : CloseTicketParams ℤ
close_params = record {
  close_reason = CloseReason.sl;
  result = TradeResult.win;
  pnl = pos 10_000;
  vector_id = none;
  labeling_deps = none;
}

abbrev shut : TicketRow ℤ
shut = record raised {
  state = closed;
  closed_at = some 9_500;
  close_reason = some CloseReason.sl;
  result = some TradeResult.win;
  pnl = some (pos 10_000);
  pnl_pct = some (pos 50);
  hold_duration_sec = some (pos 4);
  updated_at = 9_500;
}

abbrev db_closed : Db ℤ
db_closed = record db {
  tickets = child ∷ shut ∷ [];
  symbol_states =
      record {
        id = codes "row";
        symbol = codes "BTCUSDT";
        exchange = binance;
        fsm_state = idle;
        execution_mode = analysis;
        daily_bias = none;
        daily_open = none;
        session_box_high = none;
        session_box_low = none;
        losses_today = some (pos 0);
        losses_session = some 0;
        losses_this_1h_5m = some 0;
        losses_this_1h_1m = some 0;
        updated_at = 9_500;
      }
      ∷ [];
}

execute_pyramid-Made_example :
    ((can_pyramid (parent_in tp1_hit) params.config).allowed ≡ true)
    × ((size : SizeResult ℤ) × (request : EntryRequest ℤ ℤ) × (entry : EntryResult ℤ) × IsSized db
          params
          (codes "child")
          7_000
          size
        × IsOrderedFor db params (codes "child") 7_000 size request
        × (params.execute_entry request [] ≡ (ok entry, entry_request params sized ∷ []))
        × (entry.success ≡ true)
        × IsChild db params (codes "child") 7_000 size entry child
        × (db_after ≡ record db { tickets = tickets_with_child db params child 7_000 }))
unfolding execute_pyramid fixed get_risk_pct calculate_size
execute_pyramid-Made_example =
    execute_pyramid-Made db params (codes "child") 7_000 [] (entry_request params sized ∷ []) child
      db_after refl

close_ticket-execute_pyramid_example :
    (1 ≤ count_in db_closed (codes "BTCUSDT") binance)
    × All
        (λ r. row_at (codes "BTCUSDT") binance r ≡ true → r.fsm_state ≡ idle)
        db_closed.symbol_states
unfolding execute_pyramid fixed get_risk_pct calculate_size close_ticket validate_transition
    can_transition transition_map label_vector
close_ticket-execute_pyramid_example =
    close_ticket-execute_pyramid db db_after db_closed params (codes "child") 7_000 9_500 []
      (entry_request params sized ∷ []) child shut close_params refl refl refl refl
