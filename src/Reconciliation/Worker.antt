-- ===== src/Reconciliation/Worker.antt =====
-- reconciliation/worker.ts. The callers' functions are a record over a world `X`, where an exception
-- is an error with its message; the fetches of the exchanges happen in the order in which the code
-- starts them. The alert, which is sent without waiting for it, and logging are left out.
pub mod Cycle
pub mod Handled
pub mod Unfetched
pub mod Loop
use combine_trade.Prelude.{ℕ, List, Text, Result}
use combine_trade.Prelude.Int.{ℤ}
use combine_trade.Prelude.State.{State}
use combine_trade.Core.Types.{Exchange, Direction}
use combine_trade.Reconciliation.Comparator.{ExchangePosition, TicketSnapshot}

pub record ExchangeError : Type 0 where
  pub exchange : Exchange
  pub error : Text

pub record ReconciliationRunResult : Type 0 where
  pub snapshot_time : ℕ
  pub matched : ℕ
  pub unmatched : ℕ
  pub orphaned : ℕ
  pub excluded : ℕ
  pub errors : List ExchangeError
  pub action_errors : ℕ
  pub duration_ms : ℤ

-- What the cycle writes to the event log.
pub data Event (D : Type 0) : Type 0 where
  panic_close : Text → Exchange → D → Direction → Event D
  orphan_idle : Text → Exchange → Text → Event D
  matched_count : ℕ → Event D

-- An exchange with the fetchPositions of its adapter.
pub record Source (D X : Type 0) : Type 0 where
  pub exchange : Exchange
  pub fetch_positions : State X (Result Text (List (ExchangePosition D)))

pub record ReconciliationDeps (D X : Type 0) : Type 0 where
  pub get_active_tickets : State X (Result Text (List TicketSnapshot))
  pub get_pending_symbols : State X (Result Text (List Text))
  pub emergency_close : ExchangePosition D → State X (Result Text (Unit {0}))
  pub set_symbol_state_idle : Text → Exchange → State X (Result Text (Unit {0}))
  pub insert_event : Event D → State X (Result Text (Unit {0}))
  -- Date.now()
  pub now : State X ℕ
