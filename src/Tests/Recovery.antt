-- ===== src/Tests/Recovery.antt =====
-- A recovery that no exchange answers.
use combine_trade.Prelude.{
  ℕ, suc, true, ◌&&◌, List, [], ◌∷◌, none, some, codes, Option, Text, Result, ok, err, ◌≡◌,
}
use combine_trade.Prelude.Int.{ℤ}
use combine_trade.Prelude.State.{pure}
use combine_trade.Core.Types.{Exchange, binance, long, DailyBias, long_only}
use combine_trade.Daemon.Pipeline.{WatchSession, bb4_touch}
use combine_trade.Daemon.Recovery.{CrashRecoveryDeps}
use combine_trade.Daemon.Recovery.Steps.{recover_from_crash}
use combine_trade.Daemon.Recovery.Returning.{returns, recover_from_crash-returns}
use combine_trade.Reconciliation.Worker.{Source}
use combine_trade.Reconciliation.Worker.Cycle.{fetch_all}

abbrev session : Text → ℕ → WatchSession ℤ
session id at = record {
  id = id;
  symbol = codes "BTCUSDT";
  exchange = binance;
  detection_type = bb4_touch;
  direction = long;
  tp1_price = none;
  tp2_price = none;
  detected_at = at;
}

abbrev sessions : List (WatchSession ℤ)
sessions = session (codes "new") 90_000_000 ∷ session (codes "old") 1_000 ∷ []

abbrev bias : Text → Exchange → Result Text (Option DailyBias)
bias s e = ok (some long_only)

-- The world is the number of events; invalidating a session fails.
abbrev deps : CrashRecoveryDeps ℤ ℕ
deps = record {
  now = pure 100_000_000;
  get_active_tickets = pure (ok []);
  get_pending_symbols = pure (ok []);
  compare_positions =
      λ ps ts pending at. record { matched = []; unmatched = []; orphaned = []; excluded = [] };
  emergency_close = λ p. pure (ok tt);
  set_symbol_state_idle = λ s e. pure (ok tt);
  check_sl_on_exchange = λ s e. pure (ok true);
  re_register_sl = λ s e t. pure (ok tt);
  restore_loss_counters = pure (ok tt);
  insert_event = λ e n. (ok tt, suc n);
  get_active_watch_sessions = pure (ok sessions);
  get_symbol_daily_bias = λ s e. pure (bias s e);
  invalidate_watch_session = λ id reason. pure (err (codes "timeout"));
  send_slack_alert = λ r. pure (ok tt);
  set_fsm_state = λ s e state. pure (ok tt);
}

abbrev sources : List (Source ℤ ℕ)
sources = record { exchange = binance; fetch_positions = pure (err (codes "timeout")) } ∷ []

recover_from_crash-returns_example :
    let fetched = (fetch_all sources (deps.now 0).1).1 in
    returns (recover_from_crash deps sources 0).0
    ≡ returns (deps.get_active_tickets fetched).0
      && returns (deps.get_pending_symbols (deps.get_active_tickets fetched).1).0
recover_from_crash-returns_example = recover_from_crash-returns deps sources 0
