-- ===== src/Reconciliation/Worker/Cycle.antt =====
-- runOnce of reconciliation/worker.ts.
use combine_trade.Prelude.{
  ℕ, ◌+◌, Bool, true, false, not, ◌||◌, List, [], ◌∷◌, ◌++◌, Text, Result, ok, err, any, length,
  if◌then◌else◌,
}
use combine_trade.Prelude.Int.{sub_ℕ}
use combine_trade.Prelude.State.{State, pure, ◌>>=◌}
use combine_trade.Core.Types.{Exchange, eq_exchange}
use combine_trade.Reconciliation.Comparator.{
  ExchangePosition, TicketSnapshot, ReconciliationResult, compare_positions,
}
use combine_trade.Reconciliation.Worker.{
  ExchangeError, ReconciliationRunResult, Event, panic_close, orphan_idle, matched_count, Source,
  ReconciliationDeps,
}

abbrev pub is_nil {ℓ} : {A : Type ℓ} → List A → Bool
is_nil [] = true
is_nil (x ∷ xs) = false

module _ {D : Type 0} where
  -- Step 1: a failed fetch is recorded, and the exchange counts as having no positions.
  unfoldable pub add_fetched :
      Exchange
      → Result Text (List (ExchangePosition D))
      → List (ExchangePosition D) × List ExchangeError
      → List (ExchangePosition D) × List ExchangeError
  add_fetched exchange (ok ps) (positions, errors) = (ps ++ positions, errors)
  add_fetched exchange (err message) (positions, errors) =
      (positions, record { exchange = exchange; error = message } ∷ errors)

module _ {D X : Type 0} where
  unfoldable pub fetch_all :
      List (Source D X) → State X (List (ExchangePosition D) × List ExchangeError)
  unfolding add_fetched
  fetch_all [] = pure ([], [])
  fetch_all (s ∷ ss) = do
    answer ← s.fetch_positions
    rest ← fetch_all ss
    pure (add_fetched s.exchange answer rest)

  -- `adapters.get(exchange) !== undefined`
  unfoldable pub has_adapter : List (Source D X) → Exchange → Bool
  has_adapter sources exchange = any (λ s. eq_exchange s.exchange exchange) sources

  module _ (deps : ReconciliationDeps D X) where
    open deps use {
      get_active_tickets, get_pending_symbols, emergency_close, set_symbol_state_idle, insert_event,
      now,
    }

    -- The event of an action that went through; the number of errors.
    unfoldable pub log_action : Event D → Result Text (Unit {0}) → State X ℕ
    log_action event (err message) = pure 1
    log_action event (ok done) = do
      logged ← insert_event event
      pure (elim logged [ ok _ ↦ 0 | err _ ↦ 1 ])

    -- Step 4.
    unfoldable pub close_position : List (Source D X) → ExchangePosition D → State X ℕ
    unfolding has_adapter log_action
    close_position sources p =
        if has_adapter sources p.exchange
        then (do
          closed ← emergency_close p
          log_action (panic_close p.symbol p.exchange p.size p.side) closed)
        else pure 1

    unfoldable pub close_unmatched : List (Source D X) → List (ExchangePosition D) → State X ℕ
    unfolding close_position
    close_unmatched sources [] = pure 0
    close_unmatched sources (p ∷ ps) = do
      failed ← close_position sources p
      rest ← close_unmatched sources ps
      pure (failed + rest)

    -- Step 5.
    unfoldable pub idle_orphans : List TicketSnapshot → State X ℕ
    unfolding log_action
    idle_orphans [] = pure 0
    idle_orphans (t ∷ ts) = do
      idled ← set_symbol_state_idle t.symbol t.exchange
      failed ← log_action (orphan_idle t.symbol t.exchange t.id) idled
      rest ← idle_orphans ts
      pure (failed + rest)

    -- Step 6.
    unfoldable pub log_matched : ReconciliationResult D → State X ℕ
    unfolding log_action
    log_matched r =
        if not (is_nil r.matched) || is_nil r.unmatched
        then log_action (matched_count (length r.matched)) (ok tt)
        else pure 0

    -- Steps 4 to 6.
    unfoldable pub act :
        List (Source D X)
        → ℕ
        → List ExchangeError
        → ReconciliationResult D
        → State X ReconciliationRunResult
    unfolding close_unmatched idle_orphans log_matched
    act sources start errors r = do
      unclosed ← close_unmatched sources r.unmatched
      unidled ← idle_orphans r.orphaned
      unlogged ← log_matched r
      end ← now
      pure (record {
        snapshot_time = start;
        matched = length r.matched;
        unmatched = length r.unmatched;
        orphaned = length r.orphaned;
        excluded = length r.excluded;
        errors = errors;
        action_errors = unclosed + unidled + unlogged;
        duration_ms = sub_ℕ end start;
      })

    -- Steps 2 and 3: an exception of either query ends the cycle.
    unfoldable pub compare_with :
        List (Source D X)
        → ℕ
        → List (ExchangePosition D) × List ExchangeError
        → Result Text (List TicketSnapshot)
        → Result Text (List Text)
        → State X (Result Text ReconciliationRunResult)
    unfolding act
    compare_with sources start (positions, errors) (ok tickets) (ok pending) = do
      result ← act sources start errors (compare_positions positions tickets pending start)
      pure (ok result)
    compare_with sources start (positions, errors) (err message) pending = pure (err message)
    compare_with sources start (positions, errors) (ok tickets) (err message) = pure (err message)

    unfoldable pub run_once : List (Source D X) → State X (Result Text ReconciliationRunResult)
    unfolding compare_with fetch_all
    run_once sources = do
      start ← now
      fetched ← fetch_all sources
      tickets ← get_active_tickets
      pending ← get_pending_symbols
      compare_with sources start fetched tickets pending
