-- ===== src/Positions/Pyramid/Entry.antt =====
-- executePyramid of positions/pyramid.ts.
use combine_trade.Prelude.{
  ℕ, suc, not, Option, none, some, Text, codes, any, update_where, Result, ok, err, ◌>>=◌, ◌>>◌,
  throw_if, if◌then◌else◌,
}
use combine_trade.Prelude.State.{State}
use combine_trade.Core.Types.{initial, Error, foreign_key_violation}
use combine_trade.Core.Decimal.{Decimal}
use combine_trade.Positions.Sizer.{SizeResult, get_risk_pct, calculate_size}
use combine_trade.Positions.Tickets.{TicketRow, Db, has_id}
use combine_trade.Positions.Tickets.Operations.{insert_ticket}
use combine_trade.Positions.Pyramid.{
  EntryRequest, EntryResult, PyramidError, not_allowed, sizing_failed, entry_failed, entry_threw,
  thrown, ExecutePyramidParams, count_or_zero, can_pyramid,
}

abbrev pub lift_error {ℓ} : {A : Type ℓ} → Result Error A → Result PyramidError A
lift_error (ok a) = ok a
lift_error (err e) = err (thrown e)

abbrev reason_or_unknown : Option Text → Text
reason_or_unknown none = codes "unknown"
reason_or_unknown (some reason) = reason

module _ {D : Type 0} where
  unfoldable pub size_or_throw : Option (SizeResult D) → Result PyramidError (SizeResult D)
  size_or_throw none = err sizing_failed
  size_or_throw (some size) = ok size

  abbrev filled_or_signal : Option D → D → D
  filled_or_signal none price = price
  filled_or_signal (some filled) price = filled

  abbrev pub set_pyramid_count : ℕ → ℕ → TicketRow D → TicketRow D
  set_pyramid_count count now t = record t { pyramid_count = some count; updated_at = now }

module _ {D S X : Type 0} ⦃dec : Decimal D⦄ where
  -- Steps 1 and 2.
  unfoldable pub plan_pyramid : ExecutePyramidParams D S X → Result PyramidError (SizeResult D)
  unfolding can_pyramid size_or_throw
  plan_pyramid p = do
    throw_if (not (can_pyramid p.parent_ticket p.config).allowed)
        (not_allowed (can_pyramid p.parent_ticket p.config).reason)
    risk_pct ← lift_error (get_risk_pct p.balance)
    size ← lift_error (
        calculate_size (record {
          balance = p.balance;
          entry_price = p.signal.entry_price;
          sl_price = p.signal.sl_price;
          direction = p.signal.direction;
          exchange_info = p.exchange_info;
          risk_pct = risk_pct;
        }))
    size_or_throw size

  abbrev pub entry_request : ExecutePyramidParams D S X → SizeResult D → EntryRequest D S
  entry_request p size = record {
    symbol = p.parent_ticket.symbol;
    exchange = p.parent_ticket.exchange;
    direction = p.signal.direction;
    entry_price = p.signal.entry_price;
    sl_price = p.signal.sl_price;
    size = size.size;
    leverage = size.leverage;
    slippage_config = p.slippage_config;
  }

  unfoldable pub child_ticket :
      ExecutePyramidParams D S X → SizeResult D → Option D → Text → ℕ → TicketRow D
  child_ticket p size filled new_id now = record {
    id = new_id;
    symbol = p.parent_ticket.symbol;
    exchange = p.parent_ticket.exchange;
    signal_id = p.signal.id;
    parent_ticket_id = some p.parent_ticket.id;
    timeframe = p.signal.timeframe;
    direction = p.signal.direction;
    state = initial;
    entry_price = filled_or_signal filled p.signal.entry_price;
    sl_price = p.signal.sl_price;
    current_sl_price = p.signal.sl_price;
    size = size.size;
    remaining_size = size.size;
    leverage = size.leverage;
    tp1_price = p.signal.tp1_price;
    tp2_price = p.signal.tp2_price;
    pyramid_count = some 0;
    opened_at = now;
    closed_at = none;
    close_reason = none;
    result = none;
    pnl = none;
    pnl_pct = none;
    hold_duration_sec = none;
    updated_at = now;
  }

  -- Steps 4 and 5, in one transaction. The new count is that of the row the caller passed, plus one.
  unfoldable pub insert_child :
      Db D → ExecutePyramidParams D S X → TicketRow D → ℕ → Result Error (TicketRow D × Db D)
  unfolding insert_ticket
  insert_child db p child now = do
    throw_if (not (any (has_id p.parent_ticket.id) db.tickets))
        (foreign_key_violation p.parent_ticket.id)
    inserted ← insert_ticket db child
    ok (
      child,
      record inserted {
        tickets =
            update_where (has_id p.parent_ticket.id)
              (set_pyramid_count (suc (count_or_zero p.parent_ticket.pyramid_count)) now)
              inserted.tickets;
      },
    )

  -- What follows the answer of the executor.
  unfoldable pub settle_pyramid :
      Db D
      → ExecutePyramidParams D S X
      → SizeResult D
      → Result Text (EntryResult D)
      → Text
      → ℕ
      → Result PyramidError (TicketRow D × Db D)
  unfolding insert_child child_ticket
  settle_pyramid db p size (err message) new_id now = err (entry_threw message)
  settle_pyramid db p size (ok entry) new_id now =
      if entry.success
      then lift_error (insert_child db p (child_ticket p size entry.filled_price new_id now) now)
      else err (entry_failed (reason_or_unknown entry.abort_reason))

  unfoldable pub enter_pyramid :
      Db D
      → ExecutePyramidParams D S X
      → Text
      → ℕ
      → Result PyramidError (SizeResult D)
      → State X (Result PyramidError (TicketRow D × Db D))
  unfolding settle_pyramid
  enter_pyramid db p new_id now (err e) x = (err e, x)
  enter_pyramid db p new_id now (ok size) x =
      let (answer, x') = p.execute_entry (entry_request p size) x in
      (settle_pyramid db p size answer new_id now, x')

  unfoldable pub execute_pyramid :
      Db D
      → ExecutePyramidParams D S X
      → Text
      → ℕ
      → State X (Result PyramidError (TicketRow D × Db D))
  unfolding plan_pyramid enter_pyramid
  execute_pyramid db p new_id now = enter_pyramid db p new_id now (plan_pyramid p)
