-- ===== src/Exits/Manager/Trail.antt =====
-- processTrailing of exits/manager.ts.
use combine_trade.Prelude.{Bool, true, false, Option, none, some, if◌then◌else◌}
use combine_trade.Prelude.State.{State, pure, ◌>>=◌}
use combine_trade.Core.Types.{Exchange}
use combine_trade.Core.Decimal.{Decimal, nought, max}
use combine_trade.Orders.Record.{Adapter}
use combine_trade.Exits.Trailing.{
  calc_max_profit, calculate_trailing_sl, should_update_trailing_sl, default_trailing_ratio,
}
use combine_trade.Exits.Manager.{ExitTicket, TrailingUpdateResult}
use combine_trade.Exits.Manager.Stops.{move_sl}

abbrev pub not_updated : {D : Type 0} → TrailingUpdateResult D
not_updated = record {
  updated = false;
  new_trailing_price = none;
  new_max_profit = none;
  sl_order = none;
}

abbrev pub or_else : {D : Type 0} → Option D → D → D
or_else none x = x
or_else (some y) x = y

module _ {D : Type 0} ⦃dec : Decimal D⦄ where
  abbrev pub current_trailing_price : ExitTicket D → D
  current_trailing_price ticket = or_else ticket.trailing_price ticket.entry_price

  -- Steps 1 and 2: the greatest profit so far.
  unfoldable pub next_max_profit : ExitTicket D → D → D
  unfolding calc_max_profit
  next_max_profit ticket current_price =
      max (or_else ticket.max_profit nought)
        (calc_max_profit ticket.entry_price current_price ticket.direction)

  -- Step 3: the stop that this profit calls for.
  unfoldable pub next_trailing_sl : ExitTicket D → D → D
  unfolding calculate_trailing_sl next_max_profit
  next_trailing_sl ticket current_price =
      calculate_trailing_sl ticket.entry_price (next_max_profit ticket current_price)
        ticket.direction default_trailing_ratio

  -- Step 4, for a ticket whose trailing stop is active.
  unfoldable pub wants_update : ExitTicket D → D → Bool
  unfolding next_trailing_sl should_update_trailing_sl
  wants_update ticket current_price =
      if ticket.trailing_active
      then should_update_trailing_sl (current_trailing_price ticket)
          (next_trailing_sl ticket current_price) ticket.direction
      else false

module _ {D X : Type 0} ⦃dec : Decimal D⦄ (adapter : Adapter D X) where
  open adapter use {random_uuid}

  unfoldable pub process_trailing :
      ExitTicket D → D → Exchange → Bool → State X (TrailingUpdateResult D)
  unfolding wants_update
  process_trailing ticket current_price exchange supports_edit_order =
      if wants_update ticket current_price
      then (do
        intent_id ← random_uuid
        sl_order ←
            move_sl adapter ticket (next_trailing_sl ticket current_price) exchange intent_id
              supports_edit_order
        pure (record {
          updated = true;
          new_trailing_price = some (next_trailing_sl ticket current_price);
          new_max_profit = some (next_max_profit ticket current_price);
          sl_order = sl_order;
        }))
      else pure not_updated
