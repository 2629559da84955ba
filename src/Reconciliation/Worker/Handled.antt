-- ===== src/Reconciliation/Worker/Handled.antt =====
-- Steps 4 to 6 of runOnce: every mismatch is acted on.
use combine_trade.Prelude.{
  All-map, ℕ, true, not, ◌||◌, List, [], ◌∷◌, Text, Result, ok, err, All, length, ◌≡◌, inl, inr,
  Bool-cases,
}
use combine_trade.Core.Types.{Exchange}
use combine_trade.Reconciliation.Comparator.{ExchangePosition, TicketSnapshot, ReconciliationResult}
use combine_trade.Reconciliation.Worker.{
  Event, panic_close, orphan_idle, matched_count, ExchangeError, Source, ReconciliationDeps,
}
use combine_trade.Reconciliation.Worker.Cycle.{
  is_nil, has_adapter, log_action, close_position, close_unmatched, idle_orphans, log_matched, act,
}

module _ {D X : Type 0} (deps : ReconciliationDeps D X) where
  open deps use {emergency_close, set_symbol_state_idle, insert_event, now}

  -- What no action of a cycle takes back.
  abbrev pub Lasts : (X → Type 0) → Type 0
  Lasts P =
      ((p : ExchangePosition D) (x : X) → P x → P (emergency_close p x).1)
      × ((s : Text) (e : Exchange) (x : X) → P x → P (set_symbol_state_idle s e x).1)
      × ((e : Event D) (x : X) → P x → P (insert_event e x).1)
      × ((x : X) → P x → P (now x).1)

  module _ (P : X → Type 0) (lasts : Lasts P) where
    log_action_keeps :
        (e : Event D) (r : Result Text (Unit {0})) (x : X) → P x → P (log_action deps e r x).1
    unfolding log_action
    log_action_keeps e (ok done) x h = lasts.2 e x h
    log_action_keeps e (err m) x h = h

    close_position_keeps :
        (sources : List (Source D X)) (p : ExchangePosition D) (x : X)
        → P x
        → P (close_position deps sources p x).1
    unfolding close_position
    close_position_keeps sources p x h = elim (Bool-cases (has_adapter sources p.exchange)) [
      | inl e ↦ rw e (
          log_action_keeps (panic_close p.symbol p.exchange p.size p.side) (emergency_close p x).0
            (emergency_close p x).1 (lasts.0 p x h))
      | inr e ↦ rw e h
    ]

    close_unmatched_keeps :
        (sources : List (Source D X)) (ps : List (ExchangePosition D)) (x : X)
        → P x
        → P (close_unmatched deps sources ps x).1
    unfolding close_unmatched
    close_unmatched_keeps sources [] x h = h
    close_unmatched_keeps sources (p ∷ ps) x h =
        close_unmatched_keeps sources ps (close_position deps sources p x).1
          (close_position_keeps sources p x h)

    idle_orphans_keeps : (ts : List TicketSnapshot) (x : X) → P x → P (idle_orphans deps ts x).1
    unfolding idle_orphans
    idle_orphans_keeps [] x h = h
    idle_orphans_keeps (t ∷ ts) x h =
        let (idled, x') = set_symbol_state_idle t.symbol t.exchange x in
        idle_orphans_keeps ts (log_action deps (orphan_idle t.symbol t.exchange t.id) idled x').1 (
          log_action_keeps (orphan_idle t.symbol t.exchange t.id) idled x'
            (lasts.1 t.symbol t.exchange x h))

    log_matched_keeps : (r : ReconciliationResult D) (x : X) → P x → P (log_matched deps r x).1
    unfolding log_matched
    log_matched_keeps r x h = elim (Bool-cases (not (is_nil r.matched) || is_nil r.unmatched)) [
      | inl e ↦ rw e (log_action_keeps (matched_count (length r.matched)) (ok tt) x h)
      | inr e ↦ rw e h
    ]

  -- `Closed p` and `Idled s e` say that the world has seen the call for `p`, or for the market, go
  -- out, whatever came back.
  module _ (Closed : ExchangePosition D → X → Type 0) (Idled : Text → Exchange → X → Type 0)
      (closes : (p : ExchangePosition D) (x : X) → Closed p (emergency_close p x).1)
      (idles : (s : Text) (e : Exchange) (x : X) → Idled s e (set_symbol_state_idle s e x).1)
      (closed_lasts : (p : ExchangePosition D) → Lasts (Closed p))
      (idled_lasts : (s : Text) (e : Exchange) → Lasts (Idled s e)) where
    close_position-Closed :
        (sources : List (Source D X)) (p : ExchangePosition D) (x : X)
        → has_adapter sources p.exchange ≡ true
        → Closed p (close_position deps sources p x).1
    unfolding close_position
    close_position-Closed sources p x e = rw e (
        log_action_keeps (Closed p) (closed_lasts p) (panic_close p.symbol p.exchange p.size p.side)
          (emergency_close p x).0 (emergency_close p x).1 (closes p x))

    close_unmatched-Closed :
        (sources : List (Source D X)) (ps : List (ExchangePosition D)) (x : X)
        → All
            (λ p.
              has_adapter sources p.exchange ≡ true
              → Closed p (close_unmatched deps sources ps x).1)
            ps
    unfolding close_unmatched
    close_unmatched-Closed sources [] x = tt
    close_unmatched-Closed sources (p ∷ ps) x =
        let x' = (close_position deps sources p x).1 in
        (
          λ e.
              close_unmatched_keeps (Closed p) (closed_lasts p) sources ps x'
                (close_position-Closed sources p x e),
          close_unmatched-Closed sources ps x',
        )

    pub idle_orphans-Idled :
        (ts : List TicketSnapshot) (x : X)
        → All (λ t. Idled t.symbol t.exchange (idle_orphans deps ts x).1) ts
    unfolding idle_orphans
    idle_orphans-Idled [] x = tt
    idle_orphans-Idled (t ∷ ts) x =
        let P = Idled t.symbol t.exchange in
        let lasts = idled_lasts t.symbol t.exchange in
        let (idled, x') = set_symbol_state_idle t.symbol t.exchange x in
        let event = orphan_idle t.symbol t.exchange t.id in
        (
          idle_orphans_keeps P lasts ts (log_action deps event idled x').1
              (log_action_keeps P lasts event idled x' (idles t.symbol t.exchange x)),
          idle_orphans-Idled ts (log_action deps event idled x').1,
        )

    -- Whatever calls fail, Steps 4 to 6 send out the close of every unmatched position whose exchange
    -- has an adapter, and the reset to IDLE of the market of every orphaned ticket.
    pub act_handles_every :
        (sources : List (Source D X)) (start : ℕ) (errors : List ExchangeError)
        (r : ReconciliationResult D) (x : X)
        → All
            (λ p.
              has_adapter sources p.exchange ≡ true
              → Closed p (act deps sources start errors r x).1)
            r.unmatched
          × All (λ t. Idled t.symbol t.exchange (act deps sources start errors r x).1) r.orphaned
    unfolding act
    act_handles_every sources start errors r x =
        let x1 = (close_unmatched deps sources r.unmatched x).1 in
        let x2 = (idle_orphans deps r.orphaned x1).1 in
        let x3 = (log_matched deps r x2).1 in
        (
          All-map _ _ r.unmatched
              (λ p closed e. (closed_lasts p).3 x3 (
                log_matched_keeps (Closed p) (closed_lasts p) r x2
                  (idle_orphans_keeps (Closed p) (closed_lasts p) r.orphaned x1 (closed e))))
              (close_unmatched-Closed sources r.unmatched x),
          All-map _ _ r.orphaned
              (λ t idled. (idled_lasts t.symbol t.exchange).3 x3 (
                log_matched_keeps (Idled t.symbol t.exchange) (idled_lasts t.symbol t.exchange) r x2
                  idled))
              (idle_orphans-Idled r.orphaned x1),
        )
