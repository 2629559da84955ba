-- ===== src/Reconciliation/Worker/Unfetched.antt =====
-- runOnce when the positions of an exchange cannot be fetched.
use combine_trade.Prelude.{
  false, List, [], ◌∷◌, Text, ok, err, All, All-map, All-append, All-IsIn, IsIn, ◌≡◌, ◌∙◌, sym, inl,
  inr, Result-cases,
}
use combine_trade.Core.Types.{Exchange}
use combine_trade.Reconciliation.Comparator.{
  ExchangePosition, TicketSnapshot, compare_positions, is_recent_ticket,
}
use combine_trade.Reconciliation.Comparator.Tickets.{Tracks, orphaned_iff}
use combine_trade.Reconciliation.Worker.{ExchangeError, Source, ReconciliationDeps}
use combine_trade.Reconciliation.Worker.Cycle.{add_fetched, fetch_all, act, compare_with, run_once}
use combine_trade.Reconciliation.Worker.Handled.{Lasts, act_handles_every}

module _ {D : Type 0} where
  abbrev Elsewhere : Exchange → List (ExchangePosition D) → Type 0
  Elsewhere e ps = All (λ p. ¬ (p.exchange ≡ e)) ps

module _ {D X : Type 0} where
  -- Every fetch from the exchange fails.
  abbrev pub IsDown : Exchange → Source D X → Type 0
  IsDown e s = s.exchange ≡ e → (x : X) → (m : Text) × ((s.fetch_positions x).0 ≡ err m)

  -- An adapter reports positions of its own exchange only.
  abbrev pub ReportsOwn : Source D X → Type 0
  ReportsOwn s =
      (x : X) (ps : List (ExchangePosition D))
      → (s.fetch_positions x).0 ≡ ok ps
      → All (λ p. p.exchange ≡ s.exchange) ps

  add_fetched-Elsewhere :
      (e : Exchange) (s : Source D X) (x : X)
      (rest : List (ExchangePosition D) × List ExchangeError)
      → IsDown e s
      → ReportsOwn s
      → Elsewhere e rest.0
      → Elsewhere e (add_fetched s.exchange (s.fetch_positions x).0 rest).0
  unfolding add_fetched
  add_fetched-Elsewhere e s x rest down own h = elim (Result-cases (s.fetch_positions x).0) [
    | inl (ps, q) ↦ rw q (
        All-append (λ p. ¬ (p.exchange ≡ e)) ps rest.0
          (All-map _ _ ps (λ p here there. cannot_answer ps q (sym here ∙ there)) (own x ps q)) h)
    | inr (m, q) ↦ rw q h
  ]
    where
      cannot_answer :
          (ps : List (ExchangePosition D)) → (s.fetch_positions x).0 ≡ ok ps → ¬ (s.exchange ≡ e)
      cannot_answer ps q here = let (m, failed) = down here x in cc

  fetch_all-Elsewhere :
      (e : Exchange) (sources : List (Source D X)) (x : X)
      → All (IsDown e) sources
      → All ReportsOwn sources
      → Elsewhere e (fetch_all sources x).0.0
  unfolding fetch_all
  fetch_all-Elsewhere e [] x down own = tt
  fetch_all-Elsewhere e (s ∷ ss) x (down, downs) (own, owns) =
      let x' = (s.fetch_positions x).1 in
      add_fetched-Elsewhere e s x (fetch_all ss x').0 down own
        (fetch_all-Elsewhere e ss x' downs owns)

  module _ (deps : ReconciliationDeps D X) (Idled : Text → Exchange → X → Type 0)
      (idles : (s : Text) (e : Exchange) (x : X) → Idled s e (deps.set_symbol_state_idle s e x).1)
      (idled_lasts : (s : Text) (e : Exchange) → Lasts deps (Idled s e)) where
    open deps use {get_active_tickets, get_pending_symbols, now}

    -- When no adapter of an exchange can be fetched from and the others report only positions of
    -- their own, a cycle resets to IDLE the market of every active ticket of the exchange that is not
    -- newer than the cycle, though its position may be open.
    pub run_once_idles_unfetched :
        (sources : List (Source D X)) (e : Exchange) (x x2 x3 : X) (tickets : List TicketSnapshot)
        (pending : List Text) (t : TicketSnapshot)
        → All (IsDown e) sources
        → All ReportsOwn sources
        → get_active_tickets (fetch_all sources (now x).1).1 ≡ (ok tickets, x2)
        → get_pending_symbols x2 ≡ (ok pending, x3)
        → IsIn t tickets
        → t.exchange ≡ e
        → is_recent_ticket t (now x).0 ≡ false
        → Idled t.symbol t.exchange (run_once deps sources x).1
    unfolding run_once compare_with
    run_once_idles_unfetched sources e x x2 x3 tickets pending t down own active waiting mem here
          old =
        let start = (now x).0 in
        let fetched = (fetch_all sources (now x).1).0 in
        let r = compare_positions fetched.0 tickets pending start in
        let untracked =
          All-map _ (λ p. ¬ Tracks t p) fetched.0 (λ p there (_, same, _). there (sym same ∙ here))
            (fetch_all-Elsewhere e sources (now x).1 down own) in
        rw (active, waiting)
          (All-IsIn (λ u. Idled u.symbol u.exchange (act deps sources start fetched.1 r x3).1)
            r.orphaned t
            (act_handles_every deps (λ p y. Unit) Idled (λ p y. tt) idles
              (λ p. (λ q y h. tt, λ s f y h. tt, λ f y h. tt, λ y h. tt)) idled_lasts sources start
              fetched.1 r x3).1
            ((orphaned_iff fetched.0 tickets pending start t).1 (mem, old, untracked)))
