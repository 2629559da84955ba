-- ===== src/Orders/Entry/Steps.antt =====
-- The steps of executeEntry, in orders/executor.ts.
use combine_trade.Prelude.{
  ℕ, zero, suc, ◌-◌, Bool, true, false, Option, none, some, Text, Result, ok, err, if◌then◌else◌,
  ltb,
}
use combine_trade.Prelude.State.{State, pure, ◌>>=◌}
use combine_trade.Core.Types.{Error, execution_mode_error, exchange_error}
use combine_trade.Core.Decimal.{Decimal}
use combine_trade.Orders.Record.{Adapter, OrderResult, NewOrderRow, filled}
use combine_trade.Orders.Slippage.{check_slippage, check_spread, SlippageResult, SpreadCheckResult}
use combine_trade.Orders.Entry.{
  SpreadCheckConfig, ExecuteEntryParams, AbortReason, spread_too_wide, entry_failed,
  slippage_exceeded, sl_timeout, sl_retries, ExecuteEntryResult, SlRegistration, registered,
  timed_out, not_registered, sl_max_retries, sl_timeout_ms, is_live, bracket_order, plain_order,
  stop_order, panic_order, panic_row, failed_entry_row, sl_row, aborted_entry, made_entry,
  entry_row,
}

module _ {D X : Type 0} ⦃dec : Decimal D⦄ (adapter : Adapter D X) where
  open adapter use {create_order, random_uuid, set_leverage, now}

  unfoldable pub emergency_close : ExecuteEntryParams D → Text → State X (NewOrderRow D)
  unfolding panic_row
  emergency_close p intent_id = do
    key ← random_uuid
    answer ← create_order (panic_order p)
    pure (panic_row p intent_id key answer)

  -- After an attempt: the time is tested again before the next one.
  unfoldable pub settle_attempt :
      ℕ → State X (SlRegistration D) → Result Text (OrderResult D) → State X (SlRegistration D)
  settle_attempt start_time retry (ok result) = pure (registered result)
  settle_attempt start_time retry (err message) = do
    time ← now
    if ltb sl_timeout_ms (time - start_time) then pure timed_out else retry

  unfoldable pub attempt_sl_registration : ℕ → ExecuteEntryParams D → ℕ → State X (SlRegistration D)
  unfolding settle_attempt
  attempt_sl_registration zero p start_time = pure not_registered
  attempt_sl_registration (suc left) p start_time = do
    time ← now
    if ltb sl_timeout_ms (time - start_time) then pure timed_out else (do
      answer ← create_order (stop_order p)
      settle_attempt start_time (attempt_sl_registration left p start_time) answer)

  -- Step 4: whether the bracket worked, and the answer to the entry.
  unfoldable pub settle_bracket :
      ExecuteEntryParams D
      → Result Text (OrderResult D)
      → State X (Bool × Result Text (OrderResult D))
  settle_bracket p (ok result) = pure (true, ok result)
  settle_bracket p (err message) = do answer ← create_order (plain_order p); pure (false, answer)

  unfoldable pub place_entry : ExecuteEntryParams D → State X (Bool × Result Text (OrderResult D))
  unfolding settle_bracket
  place_entry p =
      if p.supports_one_step_order
      then (do answer ← create_order (bracket_order p); settle_bracket p answer)
      else (do answer ← create_order (plain_order p); pure (false, answer))

  unfoldable pub abort_after_entry :
      ExecuteEntryParams D
      → Text
      → NewOrderRow D
      → AbortReason D
      → State X (Result Error (ExecuteEntryResult D))
  unfolding emergency_close
  abort_after_entry p intent_id row reason = do
    closed ← emergency_close p intent_id
    pure (ok (aborted_entry (some row) reason))

  -- Step 7.
  unfoldable pub settle_registration :
      ExecuteEntryParams D
      → Text
      → NewOrderRow D
      → SlRegistration D
      → State X (Result Error (ExecuteEntryResult D))
  unfolding abort_after_entry sl_row
  settle_registration p intent_id row (registered result) = do
    key ← random_uuid
    pure
        (ok (made_entry row (sl_row p intent_id key result.status (some result.exchange_order_id))))
  settle_registration p intent_id row timed_out = abort_after_entry p intent_id row sl_timeout
  settle_registration p intent_id row not_registered = abort_after_entry p intent_id row sl_retries

  unfoldable pub register_sl :
      Bool
      → ExecuteEntryParams D
      → Text
      → NewOrderRow D
      → ℕ
      → State X (Result Error (ExecuteEntryResult D))
  unfolding sl_row settle_registration attempt_sl_registration
  register_sl true p intent_id row fill_time = do
    key ← random_uuid
    pure (ok (made_entry row (sl_row p intent_id key filled none)))
  register_sl false p intent_id row fill_time = do
    registration ← attempt_sl_registration sl_max_retries p fill_time
    settle_registration p intent_id row registration

  -- Step 6.
  unfoldable pub settle_slippage :
      Bool
      → ExecuteEntryParams D
      → Text
      → NewOrderRow D
      → ℕ
      → Result Error (SlippageResult D)
      → State X (Result Error (ExecuteEntryResult D))
  unfolding register_sl abort_after_entry
  settle_slippage bracket p intent_id row fill_time (err e) = pure (err e)
  settle_slippage bracket p intent_id row fill_time (ok s) =
      if s.passed
      then register_sl bracket p intent_id row fill_time
      else abort_after_entry p intent_id row (slippage_exceeded s.slippage_pct p.max_slippage_pct)

  unfoldable pub check_fill :
      Bool
      → ExecuteEntryParams D
      → Text
      → NewOrderRow D
      → ℕ
      → Option D
      → State X (Result Error (ExecuteEntryResult D))
  unfolding settle_slippage check_slippage
  check_fill bracket p intent_id row fill_time none = register_sl bracket p intent_id row fill_time
  check_fill bracket p intent_id row fill_time (some price) =
      settle_slippage bracket p intent_id row fill_time
        (check_slippage p.entry_price price p.max_slippage_pct)

  unfoldable pub settle_entry :
      ExecuteEntryParams D
      → Text
      → Bool × Result Text (OrderResult D)
      → State X (Result Error (ExecuteEntryResult D))
  unfolding check_fill failed_entry_row entry_row
  settle_entry p intent_id (bracket, err message) = do
    key ← random_uuid
    pure (
        ok (aborted_entry (some (failed_entry_row p intent_id key message)) (entry_failed message)))
  settle_entry p intent_id (bracket, ok result) = do
    fill_time ← now
    key ← random_uuid
    check_fill bracket p intent_id (entry_row p intent_id key result) fill_time result.filled_price

  -- Steps 3 to 7.
  unfoldable pub settle_leverage :
      ExecuteEntryParams D
      → Text
      → Result Text (Unit {0})
      → State X (Result Error (ExecuteEntryResult D))
  unfolding place_entry settle_entry
  settle_leverage p intent_id (err message) = pure (err (exchange_error message))
  settle_leverage p intent_id (ok done) = do answer ← place_entry p; settle_entry p intent_id answer

  unfoldable pub enter : ExecuteEntryParams D → Text → State X (Result Error (ExecuteEntryResult D))
  unfolding settle_leverage
  enter p intent_id = do done ← set_leverage p.leverage p.symbol; settle_leverage p intent_id done

  -- Step 2.
  unfoldable pub settle_spread :
      ExecuteEntryParams D
      → Text
      → D
      → Result Error (SpreadCheckResult D)
      → State X (Result Error (ExecuteEntryResult D))
  unfolding enter
  settle_spread p intent_id limit (err e) = pure (err e)
  settle_spread p intent_id limit (ok s) =
      if s.passed
      then enter p intent_id
      else pure (ok (aborted_entry none (spread_too_wide s.spread_pct limit)))

  unfoldable pub guard_spread :
      Option (SpreadCheckConfig D)
      → ExecuteEntryParams D
      → Text
      → State X (Result Error (ExecuteEntryResult D))
  unfolding settle_spread check_spread
  guard_spread none p intent_id = enter p intent_id
  guard_spread (some c) p intent_id =
      settle_spread p intent_id c.max_spread_pct (check_spread c.bid c.ask c.max_spread_pct)

  unfoldable pub execute_entry :
      ExecuteEntryParams D → State X (Result Error (ExecuteEntryResult D))
  unfolding guard_spread
  execute_entry p =
      if is_live p.mode
      then (do intent_id ← random_uuid; guard_spread p.spread_check p intent_id)
      else pure (err execution_mode_error)
