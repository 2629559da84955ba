-- ===== src/Daemon/Recovery/Sessions.antt =====
-- What becomes of the watch sessions in a recovery.
use combine_trade.Prelude.{
  ℕ, ◌+◌, Bool, true, false, not, List, [], ◌∷◌, Option, Text, Result, filter, length, ◌≡◌, refl,
  ap, codes, Result-cases, arith, inl, inr, Bool-cases,
}
use combine_trade.Core.Types.{Exchange, DailyBias}
use combine_trade.Daemon.Pipeline.{WatchSession}
use combine_trade.Daemon.Recovery.{CrashRecoveryDeps}
use combine_trade.Daemon.Recovery.Steps.{survives, settle_session, recover_sessions}

count_if : Bool → ℕ
count_if true = 1
count_if false = 0

length-filter-head :
    {A : Type 0} (p : A → Bool) (x : A) (xs : List A)
    → length (filter p (x ∷ xs)) ≡ count_if (p x) + length (filter p xs)
unfolding count_if
length-filter-head p x xs = elim (Bool-cases (p x)) [
  | inl e ↦ rw e (omega arith)
  | inr e ↦ rw e (omega arith)
]

module _ {D X : Type 0} (deps : CrashRecoveryDeps D X) where
  settle_session-counts :
      (s : WatchSession D) (kept : Bool) (x : X)
      → ((settle_session deps s kept x).0.watch_sessions_restored ≡ count_if kept)
        × ((settle_session deps s kept x).0.watch_sessions_invalidated ≡ count_if (not kept))
  unfolding settle_session count_if
  settle_session-counts s true x = (refl, refl)
  settle_session-counts s false x =
      elim (Result-cases (deps.invalidate_watch_session s.id (codes "crash_recovery_stale") x).0) [
        | inl (a, e) ↦ rw e (refl, refl)
        | inr (a, e) ↦ rw e (refl, refl)
      ]

  -- Where the daily biases do not change meanwhile, a recovery counts as restored exactly the sessions
  -- whose bias holds and which are younger than a day, and as invalidated all others, whatever fails.
  pub recover_sessions-counts :
      (bias : Text → Exchange → Result Text (Option DailyBias)) (at : ℕ)
      (sessions : List (WatchSession D)) (x : X)
      → ((s : Text) (e : Exchange) (y : X) → (deps.get_symbol_daily_bias s e y).0 ≡ bias s e)
      → ((recover_sessions deps at sessions x).0.watch_sessions_restored
          ≡ length (filter (λ s. survives s at (bias s.symbol s.exchange)) sessions))
        × ((recover_sessions deps at sessions x).0.watch_sessions_invalidated
            ≡ length (filter (λ s. not (survives s at (bias s.symbol s.exchange))) sessions))
  unfolding recover_sessions
  recover_sessions-counts bias at [] x same = (refl, refl)
  recover_sessions-counts bias at (s ∷ ss) x same =
      let (answer, x1) = deps.get_symbol_daily_bias s.symbol s.exchange x in
      let kept = survives s at answer in
      let (here, x2) = settle_session deps s kept x1 in
      let (a, b) = settle_session-counts s kept x1 in
      let (c, d) = recover_sessions-counts bias at ss x2 same in
      let read = ap (λ r. survives s at r) (same s.symbol s.exchange x) in
      let still : WatchSession D → Bool = λ u. survives u at (bias u.symbol u.exchange) in
      let gone : WatchSession D → Bool = λ u. not (survives u at (bias u.symbol u.exchange)) in
      (
        omega (arith, a, c, ap count_if read, length-filter-head still s ss),
        omega (arith, b, d, ap (λ k. count_if (not k)) read, length-filter-head gone s ss),
      )
