-- ===== src/Daemon/Recovery/Steps.antt =====
-- recoverFromCrash of daemon/crash-recovery.ts, step by step.
use combine_trade.Prelude.{
  ℕ, Bool, true, false, List, [], ◌∷◌, Option, Text, codes, Result, ok, err, map, length,
  if◌then◌else◌,
}
use combine_trade.Prelude.Int.{sub_ℕ}
use combine_trade.Prelude.State.{State, pure, ◌>>=◌}
use combine_trade.Core.Types.{has_position, DailyBias}
use combine_trade.Reconciliation.Comparator.{ExchangePosition, TicketSnapshot, ReconciliationResult}
use combine_trade.Reconciliation.Worker.{ExchangeError, Source}
use combine_trade.Reconciliation.Worker.Cycle.{fetch_all, has_adapter}
use combine_trade.Daemon.Pipeline.{WatchSession}
use combine_trade.Daemon.Recovery.{
  RecoveryError, fetch_failed, no_adapter_for_matched, no_adapter_for_unmatched,
  sl_re_registration_failed, check_sl_failed, set_fsm_state_failed, emergency_close_failed,
  set_idle_failed, invalidate_failed, restore_loss_counters_failed, get_sessions_failed, Tally,
  no_tally, failed, ◌⊕◌, CrashRecoveryResult, watch_session_restored, watch_session_invalidated,
  crash_recovery, CrashRecoveryDeps, is_valid,
}

-- An error is noted, and nothing where there is none.
abbrev pub noted : Result Text (Unit {0}) → (Text → RecoveryError) → Tally
noted (ok done) e = no_tally
noted (err message) e = failed (e message)

abbrev pub re_registered : Result Text (Unit {0}) → (Text → RecoveryError) → Tally
re_registered (ok done) e = record no_tally { sl_re_registered = 1 }
re_registered (err message) e = failed (e message)

abbrev pub fetch_errors : List ExchangeError → Tally
fetch_errors unfetched = record no_tally {
  errors = map (λ (e : ExchangeError). fetch_failed e.exchange e.error) unfetched;
}

abbrev pub result_of : {D : Type 0} → ReconciliationResult D → Tally → ℕ → ℕ → CrashRecoveryResult
result_of r tally start end = record {
  matched = length r.matched;
  unmatched = length r.unmatched;
  orphaned = length r.orphaned;
  tally = tally;
  duration_ms = sub_ℕ end start;
}

module _ {D : Type 0} where
  -- A bias that cannot be read makes the session invalid.
  unfoldable pub survives : WatchSession D → ℕ → Result Text (Option DailyBias) → Bool
  unfolding is_valid
  survives session at (ok bias) = is_valid session at bias
  survives session at (err message) = false

module _ {D X : Type 0} (deps : CrashRecoveryDeps D X) where
  open deps use {
    now, get_active_tickets, get_pending_symbols, compare_positions, emergency_close,
    set_symbol_state_idle, check_sl_on_exchange, re_register_sl, restore_loss_counters,
    insert_event, get_active_watch_sessions, get_symbol_daily_bias, invalidate_watch_session,
    send_slack_alert, set_fsm_state,
  }

  -- The stop of a matched position.
  unfoldable pub restore_stop :
      ExchangePosition D → TicketSnapshot → Result Text Bool → State X Tally
  restore_stop p t (err message) = pure (failed (check_sl_failed p.symbol p.exchange message))
  restore_stop p t (ok true) = pure no_tally
  restore_stop p t (ok false) = do
    outcome ← re_register_sl p.symbol p.exchange t
    pure (re_registered outcome (sl_re_registration_failed p.symbol p.exchange))

  unfoldable pub recover_matched :
      List (Source D X) → List (ExchangePosition D × TicketSnapshot) → State X Tally
  unfolding has_adapter restore_stop
  recover_matched sources [] = pure no_tally
  recover_matched sources ((p, t) ∷ rest) = do
    here ←
        if has_adapter sources p.exchange
        then (do
          found ← check_sl_on_exchange p.symbol p.exchange
          stop ← restore_stop p t found
          state ← set_fsm_state p.symbol p.exchange has_position
          pure (stop ⊕ noted state (set_fsm_state_failed p.symbol p.exchange)))
        else pure (failed (no_adapter_for_matched p.symbol p.exchange))
    others ← recover_matched sources rest
    pure (here ⊕ others)

  unfoldable pub recover_unmatched : List (Source D X) → List (ExchangePosition D) → State X Tally
  unfolding has_adapter
  recover_unmatched sources [] = pure no_tally
  recover_unmatched sources (p ∷ ps) = do
    here ←
        if has_adapter sources p.exchange
        then (do
          closed ← emergency_close p
          pure (noted closed (emergency_close_failed p.symbol p.exchange)))
        else pure (failed (no_adapter_for_unmatched p.symbol p.exchange))
    others ← recover_unmatched sources ps
    pure (here ⊕ others)

  unfoldable pub recover_orphaned : List TicketSnapshot → State X Tally
  recover_orphaned [] = pure no_tally
  recover_orphaned (t ∷ ts) = do
    idled ← set_symbol_state_idle t.symbol t.exchange
    others ← recover_orphaned ts
    pure (noted idled (set_idle_failed t.symbol t.exchange) ⊕ others)

  -- The event of a session is best effort.
  unfoldable pub settle_session : WatchSession D → Bool → State X Tally
  settle_session session true = do
    logged ← insert_event (watch_session_restored session.id session.direction)
    pure (record no_tally { watch_sessions_restored = 1 })
  settle_session session false = do
    gone ← invalidate_watch_session session.id (codes "crash_recovery_stale")
    logged ← insert_event (watch_session_invalidated session.id session.direction)
    pure (
        record no_tally { watch_sessions_invalidated = 1 }
        ⊕ noted gone (invalidate_failed session.symbol session.exchange))

  unfoldable pub recover_sessions : ℕ → List (WatchSession D) → State X Tally
  unfolding survives settle_session
  recover_sessions at [] = pure no_tally
  recover_sessions at (s ∷ ss) = do
    bias ← get_symbol_daily_bias s.symbol s.exchange
    here ← settle_session s (survives s at bias)
    others ← recover_sessions at ss
    pure (here ⊕ others)

  unfoldable pub recover_all_sessions : ℕ → Result Text (List (WatchSession D)) → State X Tally
  unfolding recover_sessions
  recover_all_sessions at (ok sessions) = recover_sessions at sessions
  recover_all_sessions at (err message) = pure (failed (get_sessions_failed message))

  -- From the comparison on; the last event and the alert may fail.
  unfoldable pub recover :
      List (Source D X)
      → ℕ
      → List ExchangeError
      → ReconciliationResult D
      → State X CrashRecoveryResult
  unfolding recover_matched recover_unmatched recover_orphaned recover_all_sessions
  recover sources start unfetched r = do
    matched ← recover_matched sources r.matched
    unmatched ← recover_unmatched sources r.unmatched
    orphaned ← recover_orphaned r.orphaned
    restored ← restore_loss_counters
    at ← now
    found ← get_active_watch_sessions
    sessions ← recover_all_sessions at found
    end ← now
    let tally =
        fetch_errors unfetched
        ⊕ matched
        ⊕ unmatched
        ⊕ orphaned
        ⊕ noted restored restore_loss_counters_failed
        ⊕ sessions
    let result = result_of r tally start end
    logged ← insert_event (crash_recovery result)
    alerted ← send_slack_alert result
    pure result

  unfoldable pub recover_with :
      List (Source D X)
      → ℕ
      → List (ExchangePosition D) × List ExchangeError
      → Result Text (List TicketSnapshot)
      → Result Text (List Text)
      → State X (Result Text CrashRecoveryResult)
  unfolding recover
  recover_with sources start (positions, unfetched) (ok tickets) (ok pending) = do
    result ← recover sources start unfetched (compare_positions positions tickets pending start)
    pure (ok result)
  recover_with sources start fetched (err message) pending = pure (err message)
  recover_with sources start fetched (ok tickets) (err message) = pure (err message)

  unfoldable pub recover_from_crash : List (Source D X) → State X (Result Text CrashRecoveryResult)
  unfolding recover_with fetch_all
  recover_from_crash sources = do
    start ← now
    fetched ← fetch_all sources
    tickets ← get_active_tickets
    pending ← get_pending_symbols
    recover_with sources start fetched tickets pending
