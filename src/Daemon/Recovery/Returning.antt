-- ===== src/Daemon/Recovery/Returning.antt =====
-- When recoverFromCrash of daemon/crash-recovery.ts returns.
use combine_trade.Prelude.{
  Bool, true, false, ◌&&◌, List, Result, ok, err, ◌≡◌, refl, Result-cases, inl, inr,
}
use combine_trade.Reconciliation.Worker.{Source}
use combine_trade.Reconciliation.Worker.Cycle.{fetch_all}
use combine_trade.Daemon.Recovery.{CrashRecoveryDeps}
use combine_trade.Daemon.Recovery.Steps.{recover_with, recover_from_crash}

abbrev pub returns : {E A : Type 0} → Result E A → Bool
returns (ok a) = true
returns (err e) = false

module _ {D X : Type 0} (deps : CrashRecoveryDeps D X) where
  -- A recovery returns a result exactly when both the active tickets and the pending symbols can be
  -- read, whatever other calls fail; otherwise it throws.
  pub recover_from_crash-returns :
      (sources : List (Source D X)) (x : X)
      → let fetched = (fetch_all sources (deps.now x).1).1 in
        returns (recover_from_crash deps sources x).0
        ≡ returns (deps.get_active_tickets fetched).0
          && returns (deps.get_pending_symbols (deps.get_active_tickets fetched).1).0
  unfolding recover_from_crash recover_with
  recover_from_crash-returns sources x =
      let fetched = (fetch_all sources (deps.now x).1).1 in
      let after = (deps.get_active_tickets fetched).1 in
      elim (Result-cases (deps.get_active_tickets fetched).0) [
        | inr (m, e) ↦ rw e refl
        | inl (ts, e) ↦ elim (Result-cases (deps.get_pending_symbols after).0) [
          | inl (ps, f) ↦ rw (e, f) refl
          | inr (m, f) ↦ rw (e, f) refl
        ]
      ]
