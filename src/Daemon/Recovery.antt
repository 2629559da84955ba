-- ===== src/Daemon/Recovery.antt =====
-- daemon/crash-recovery.ts. The collaborators are a record over a world `X`; one that may throw answers
-- with an error and its message. The texts of the errors are constructors; logging is left out.
pub mod Steps
pub mod Sessions
pub mod Returning
use combine_trade.Prelude.{
  ℕ, ◌+◌, Bool, true, false, ◌&&◌, List, [], ◌∷◌, ◌++◌, Option, none, some, Text, Result, ltb,
}
use combine_trade.Prelude.Int.{ℤ}
use combine_trade.Prelude.State.{State}
use combine_trade.Core.Types.{
  Exchange, Direction, long, short, FsmState, DailyBias, long_only, short_only,
}
use combine_trade.Reconciliation.Comparator.{ExchangePosition, TicketSnapshot, ReconciliationResult}
use combine_trade.Daemon.Pipeline.{WatchSession}

pub data RecoveryError : Type 0 where
  fetch_failed : Exchange → Text → RecoveryError
  no_adapter_for_matched no_adapter_for_unmatched : Text → Exchange → RecoveryError
  sl_re_registration_failed check_sl_failed set_fsm_state_failed :
      Text → Exchange → Text → RecoveryError
  emergency_close_failed set_idle_failed invalidate_failed : Text → Exchange → Text → RecoveryError
  restore_loss_counters_failed get_sessions_failed : Text → RecoveryError

-- The counters and errors that the code adds to.
pub record Tally : Type 0 where
  pub sl_re_registered : ℕ
  pub watch_sessions_restored : ℕ
  pub watch_sessions_invalidated : ℕ
  pub errors : List RecoveryError

pub record CrashRecoveryResult : Type 0 where
  pub matched : ℕ
  pub unmatched : ℕ
  pub orphaned : ℕ
  pub tally : Tally
  pub duration_ms : ℤ

pub data RecoveryEvent : Type 0 where
  watch_session_restored watch_session_invalidated : Text → Direction → RecoveryEvent
  crash_recovery : CrashRecoveryResult → RecoveryEvent

pub record CrashRecoveryDeps (D X : Type 0) : Type 0 where
  -- Date.now()
  pub now : State X ℕ
  pub get_active_tickets : State X (Result Text (List TicketSnapshot))
  pub get_pending_symbols : State X (Result Text (List Text))
  pub compare_positions :
      List (ExchangePosition D) → List TicketSnapshot → List Text → ℕ → ReconciliationResult D
  pub emergency_close : ExchangePosition D → State X (Result Text (Unit {0}))
  pub set_symbol_state_idle : Text → Exchange → State X (Result Text (Unit {0}))
  pub check_sl_on_exchange : Text → Exchange → State X (Result Text Bool)
  pub re_register_sl : Text → Exchange → TicketSnapshot → State X (Result Text (Unit {0}))
  pub restore_loss_counters : State X (Result Text (Unit {0}))
  pub insert_event : RecoveryEvent → State X (Result Text (Unit {0}))
  pub get_active_watch_sessions : State X (Result Text (List (WatchSession D)))
  pub get_symbol_daily_bias : Text → Exchange → State X (Result Text (Option DailyBias))
  pub invalidate_watch_session : Text → Text → State X (Result Text (Unit {0}))
  pub send_slack_alert : CrashRecoveryResult → State X (Result Text (Unit {0}))
  pub set_fsm_state : Text → Exchange → FsmState → State X (Result Text (Unit {0}))

abbrev pub watch_session_max_age_ms : ℕ
watch_session_max_age_ms = 86_400_000

abbrev pub no_tally : Tally
no_tally = record {
  sl_re_registered = 0;
  watch_sessions_restored = 0;
  watch_sessions_invalidated = 0;
  errors = [];
}

abbrev pub failed : RecoveryError → Tally
failed e = record no_tally { errors = e ∷ [] }

infixl 65 ◌⊕◌
abbrev pub ◌⊕◌ : Tally → Tally → Tally
s ⊕ t = record {
  sl_re_registered = s.sl_re_registered + t.sl_re_registered;
  watch_sessions_restored = s.watch_sessions_restored + t.watch_sessions_restored;
  watch_sessions_invalidated = s.watch_sessions_invalidated + t.watch_sessions_invalidated;
  errors = s.errors ++ t.errors;
}

-- The bias is the one of the direction.
abbrev pub bias_matches : Direction → Option DailyBias → Bool
bias_matches long (some long_only) = true
bias_matches short (some short_only) = true
bias_matches _ _ = false

-- A session is kept while its bias holds and it is younger than a day, also where the clock went back.
unfoldable pub is_valid : {D : Type 0} → WatchSession D → ℕ → Option DailyBias → Bool
is_valid session now bias =
    bias_matches session.direction bias && ltb now (session.detected_at + watch_session_max_age_ms)
