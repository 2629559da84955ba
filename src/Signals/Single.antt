-- ===== src/Signals/Single.antt =====
-- How many sessions of signals/watching.ts a market has.
use combine_trade.Prelude.{
  ℕ, ap, codes, Bool, true, false, ◌&&◌, ◌≤◌, List, [], ◌∷◌, ◌++◌, none, some, Text, eq_text_refl,
  filter, find, update_where, length, length-append, ◌≡◌, refl, ◌∙◌, arith, inl, inr, Bool-cases,
  Option-cases,
}
use combine_trade.Core.Types.{
  Exchange, eq_exchange_iff, FsmState, idle, watching, has_position, eq_fsm,
}
use combine_trade.Positions.Tickets.{SymbolStateRow, row_at, same_market}
use combine_trade.Positions.Tickets.Consistency.{same_market_eq}
use combine_trade.Daemon.Pipeline.{OpenWatchSessionParams, WatchSession}
use combine_trade.Signals.Sessions.{
  WatchSessionRow, WatchDb, watches, invalidated, has_session_id, open_watch_session,
  invalidate_watch_session, get_active_watch_session, move_symbol, session_of,
}

filter-append :
    {A : Type 0} (p : A → Bool) (xs ys : List A) → filter p (xs ++ ys) ≡ filter p xs ++ filter p ys
filter-append p [] ys = refl
filter-append p (x ∷ xs) ys = ground (arith, filter-append p xs ys)

own_market : (s : Text) (e : Exchange) → same_market s e s e && true ≡ true
own_market s e = rw (eq_text_refl s, (eq_exchange_iff e e).1 refl) refl

apart :
    (a from : FsmState) (at : Bool)
    → at && eq_fsm a from ≡ true
    → eq_fsm from has_position ≡ false
    → eq_fsm a has_position ≡ false
apart a from at h k = ground arith

module _ {D : Type 0} where
  -- Every market has at most one active session.
  abbrev pub IsSingle : List (WatchSessionRow D) → Type 0
  IsSingle rows =
      (symbol : Text) (exchange : Exchange) → length (filter (watches symbol exchange) rows) ≤ 1

  -- Invalidating sessions makes none active.
  fewer :
      (p : WatchSessionRow D → Bool) (now : ℕ) (reason : Text) (s : Text) (e : Exchange)
      (rows : List (WatchSessionRow D))
      → length (filter (watches s e) (update_where p (invalidated now reason) rows))
        ≤ length (filter (watches s e) rows)
  fewer p now reason s e [] = omega arith
  fewer p now reason s e (x ∷ xs) = ground (arith, fewer p now reason s e xs)

  none_left :
      (now : ℕ) (reason : Text) (s : Text) (e : Exchange) (rows : List (WatchSessionRow D))
      → filter (watches s e) (update_where (watches s e) (invalidated now reason) rows) ≡ []
  none_left now reason s e [] = refl
  none_left now reason s e (x ∷ xs) =
      let rest = none_left now reason s e xs in
      elim (Bool-cases (same_market x.session.symbol x.session.exchange s e)) [
        | inr h ↦ rw (h, h) rest
        | inl h ↦ elim (Option-cases x.invalidated_at) [
          | inl f ↦ rw (h, f, h) rest
          | inr (at, f) ↦ rw (h, f, h) rest
        ]
      ]

  -- The row that is added.
  abbrev new_row : WatchSession D → WatchSessionRow D
  new_row session = record { session = session; invalidated_at = none; invalidation_reason = none }

  one_row :
      (s : Text) (e : Exchange) (row : WatchSessionRow D)
      → length (filter (watches s e) (row ∷ [])) ≤ 1
  one_row s e row = ground arith

  elsewhere :
      (session : WatchSession D) (s : Text) (e : Exchange)
      → same_market session.symbol session.exchange s e ≡ false
      → filter (watches s e) (new_row session ∷ []) ≡ []
  elsewhere session s e h = rw h refl

  -- Opening a watch session keeps at most one active session per market.
  pub open_watch_session-IsSingle :
      (db : WatchDb D) (params : OpenWatchSessionParams D) (id : Text) (now : ℕ)
      → IsSingle db.sessions
      → IsSingle (open_watch_session db params id now).1.sessions
  unfolding open_watch_session
  open_watch_session-IsSingle db params id now single s e =
      let session = session_of params id in
      let reason = codes "new_session_started" in
      let at = watches params.symbol params.exchange in
      let closed = update_where at (invalidated now reason) db.sessions in
      let count = λ (s : Text) (e : Exchange). length (filter (watches s e) closed) in
      rw (filter-append (watches s e) closed (new_row session ∷ []))
        (elim (Bool-cases (same_market params.symbol params.exchange s e)) [
          | inl h ↦ omega (
            arith,
            length-append (filter (watches s e) closed)
                (filter (watches s e) (new_row session ∷ [])),
            same_market_eq count params.symbol params.exchange s e h,
            ap length (none_left now reason params.symbol params.exchange db.sessions),
            one_row s e (new_row session),
          )
          | inr h ↦ omega (
            arith,
            length-append (filter (watches s e) closed)
                (filter (watches s e) (new_row session ∷ [])),
            ap length (elsewhere session s e h),
            fewer at now reason s e db.sessions,
            single s e,
          )
        ])

  find-append :
      (p : WatchSessionRow D → Bool) (xs : List (WatchSessionRow D)) (row : WatchSessionRow D)
      → filter p xs ≡ []
      → p row ≡ true
      → find p (xs ++ row ∷ []) ≡ some row
  find-append p [] row empty h = rw h refl
  find-append p (x ∷ xs) row empty h = ground (arith, find-append p xs row)

  -- Right after it is opened, a session is the active one of its market.
  pub get_active_watch_session-open_watch_session :
      (db : WatchDb D) (params : OpenWatchSessionParams D) (id : Text) (now : ℕ)
      → let (session, db') = open_watch_session db params id now in
        get_active_watch_session db' params.symbol params.exchange ≡ some session
  unfolding open_watch_session get_active_watch_session
  get_active_watch_session-open_watch_session db params id now =
      let reason = codes "new_session_started" in
      let at = watches params.symbol params.exchange in
      let closed = update_where at (invalidated now reason) db.sessions in
      let row = new_row (session_of params id) in
      rw
        (find-append at closed row (none_left now reason params.symbol params.exchange db.sessions)
          (own_market params.symbol params.exchange))
        refl

  -- The rows of markets with a position.
  abbrev pub held : SymbolStateRow D → Bool
  held row = eq_fsm row.fsm_state has_position

  move_symbol-held :
      (s : Text) (e : Exchange) (from to : FsmState) (now : ℕ) (rows : List (SymbolStateRow D))
      → eq_fsm from has_position ≡ false
      → eq_fsm to has_position ≡ false
      → filter held (move_symbol s e from to now rows) ≡ filter held rows
  unfolding move_symbol
  move_symbol-held s e from to now [] h k = refl
  move_symbol-held s e from to now (x ∷ xs) h k =
      let rest = move_symbol-held s e from to now xs h k in
      elim (Bool-cases (row_at s e x && eq_fsm x.fsm_state from)) [
        | inr stays ↦ rw (stays, rest) refl
        | inl moved ↦ rw (moved, k, apart x.fsm_state from (row_at s e x) moved h) rest
      ]

  -- Whatever is opened and invalidated, the rows of markets with a position stay as they are.
  pub open_watch_session-held :
      (db : WatchDb D) (params : OpenWatchSessionParams D) (id old reason : Text) (now later : ℕ)
      → filter held
          (invalidate_watch_session
            (open_watch_session db params id now).1
            old
            reason
            later).symbol_states
        ≡ filter held db.symbol_states
  unfolding open_watch_session invalidate_watch_session
  open_watch_session-held db params id old reason now later =
      let opened = (open_watch_session db params id now).1 in
      elim (Option-cases (find (has_session_id old) opened.sessions)) [
        | inl e ↦ rw e (
            move_symbol-held params.symbol params.exchange idle watching now db.symbol_states refl
              refl)
        | inr (row, e) ↦ rw e (
            move_symbol-held row.session.symbol row.session.exchange watching idle later
              opened.symbol_states refl refl
            ∙ move_symbol-held params.symbol params.exchange idle watching now db.symbol_states refl
                refl)
      ]
