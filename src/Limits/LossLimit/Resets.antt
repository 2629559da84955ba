-- ===== src/Limits/LossLimit/Resets.antt =====
-- The resets: when they are due, and that their order does not matter.
use combine_trade.Prelude.{
  ℕ, ap, leb, ◌==◌, not, map, none, Option, ◌/◌, ◌%◌, Bool, true, false, List, [], ◌∷◌, some, Text,
  IsIn, update_where, any, ◌≡◌, ◌↔◌, refl, sym, ◌∙◌, fun_ext, arith, if◌then◌else◌,
}
use combine_trade.Core.Types.{Exchange}
use combine_trade.Core.Decimal.{Decimal, nought}
use combine_trade.Limits.LossLimit.{
  Calendar, should_reset_daily, should_reset_hourly, same_utc_date_key, LossRow, Reset, daily_reset,
  session_reset, hourly_reset, run_resets, run_reset, pending_resets, due_resets, reset_all_expired,
  LastResets, ResetResult, session_due, should_reset_session, at_key, clear_daily, clear_session,
  clear_hourly,
}

-- Two dates have the same year, month and day of the month exactly when they fall on one UTC day,
-- and the hour is that of the day.
pub record IsUtc (calendar : Calendar) : Type 0 where
  pub same_day :
      (s t : ℕ) → (same_utc_date_key calendar s t ≡ true) ↔ (s / 86_400_000 ≡ t / 86_400_000)
  pub hour_of_day : (t : ℕ) → calendar.hours t ≡ t / 3_600_000 % 24

module _ (calendar : Calendar) (utc : IsUtc calendar) where
  open utc use {same_day, hour_of_day}

  -- The hourly counters are reset exactly across an hour boundary of the clock, and the daily one
  -- exactly across midnight.
  pub should_reset-boundaries :
      (now last : ℕ)
      → ((should_reset_hourly calendar now last ≡ false) ↔ (now / 3_600_000 ≡ last / 3_600_000))
        × ((should_reset_daily calendar now last ≡ false) ↔ (now / 86_400_000 ≡ last / 86_400_000))
  unfolding should_reset_hourly should_reset_daily
  should_reset-boundaries now last =
      ground (arith, same_day now last, hour_of_day now, hour_of_day last)

abbrev eq_reset : Reset → Reset → Bool
eq_reset daily_reset daily_reset = true
eq_reset session_reset session_reset = true
eq_reset hourly_reset hourly_reset = true
eq_reset _ _ = false

has : Reset → List Reset → Bool
has w = any (eq_reset w)

has-IsIn : (w : Reset) (ws : List Reset) → (has w ws ≡ true) ↔ IsIn w ws
unfolding has
has-IsIn w [] = ground arith
has-IsIn w (v ∷ ws) = ground (arith, has-IsIn w ws)

has_congr : (w : Reset) (us ws : List Reset) → IsIn w us ↔ IsIn w ws → has w us ≡ has w ws
has_congr w us ws h = ground (arith, has-IsIn w us, has-IsIn w ws)

abbrev pub resets_of : List (Reset × ℕ) → List Reset
resets_of ws = map (λ (p : Reset × ℕ). p.0) ws

resets_of-map : (clock : Reset → ℕ) (ws : List Reset) → resets_of (map (λ w. (w, clock w)) ws) ≡ ws
resets_of-map clock [] = refl
resets_of-map clock (w ∷ ws) = ap (λ us. w ∷ us) (resets_of-map clock ws)

-- The time of the last write, where there is one.
abbrev pub last_time : ℕ → List (Reset × ℕ) → ℕ
last_time at [] = at
last_time at ((w, t) ∷ ws) = last_time t ws

-- There is a session and it has started.
abbrev pub has_started : ℕ → Option ℕ → Bool
has_started now none = false
has_started now (some start) = leb start now

has-pending_resets :
    (r : ResetResult)
    → (has daily_reset (pending_resets r) ≡ r.daily_reset)
      × (has session_reset (pending_resets r) ≡ r.session_reset)
      × (has hourly_reset (pending_resets r) ≡ r.hourly_reset)
unfolding has pending_resets
has-pending_resets r = ground arith

session_due-has_started :
    (now : ℕ) (start : Option ℕ) → session_due now start ≡ has_started now start
unfolding should_reset_session
session_due-has_started now none = refl
session_due-has_started now (some start) = refl

module _ (calendar : Calendar) (utc : IsUtc calendar) (now : ℕ) (last : LastResets) where
  daily_eq :
      should_reset_daily calendar now last.last_daily_reset
      ≡ not (now / 86_400_000 == last.last_daily_reset / 86_400_000)
  daily_eq = ground (arith, (should_reset-boundaries calendar utc now last.last_daily_reset).1)

  hourly_eq :
      should_reset_hourly calendar now last.last_hourly_reset
      ≡ not (now / 3_600_000 == last.last_hourly_reset / 3_600_000)
  hourly_eq = ground (arith, (should_reset-boundaries calendar utc now last.last_hourly_reset).0)

  has_due :
      (has daily_reset (pending_resets (due_resets calendar now last))
        ≡ not (now / 86_400_000 == last.last_daily_reset / 86_400_000))
      × (has session_reset (pending_resets (due_resets calendar now last))
          ≡ has_started now last.session_start_time)
      × (has hourly_reset (pending_resets (due_resets calendar now last))
          ≡ not (now / 3_600_000 == last.last_hourly_reset / 3_600_000))
  unfolding due_resets
  has_due =
      let (day, session, hour) = has-pending_resets (due_resets calendar now last) in
      (
        day ∙ daily_eq,
        session ∙ session_due-has_started now last.session_start_time,
        hour ∙ hourly_eq,
      )

module _ {D : Type 0} ⦃dec : Decimal D⦄ where
  -- What the resets at `now` owe a row: another day, a session that has started and another hour each
  -- clear their counters; the other counters stay. The row has the time of the last write.
  abbrev pub refreshed : ℕ → LastResets → List (Reset × ℕ) → LossRow D → LossRow D
  refreshed now last ws row = record row {
    losses_today =
        if now / 86_400_000 == last.last_daily_reset / 86_400_000
        then row.losses_today
        else some nought;
    losses_session = if has_started now last.session_start_time then some 0 else row.losses_session;
    losses_this_1h_5m =
        if now / 3_600_000 == last.last_hourly_reset / 3_600_000
        then row.losses_this_1h_5m
        else some 0;
    losses_this_1h_1m =
        if now / 3_600_000 == last.last_hourly_reset / 3_600_000
        then row.losses_this_1h_1m
        else some 0;
    updated_at = last_time row.updated_at ws;
  }

  reset_row : Reset → ℕ → LossRow D → LossRow D
  reset_row daily_reset at row = clear_daily at row
  reset_row session_reset at row = clear_session at row
  reset_row hourly_reset at row = clear_hourly at row

  reset_row_all : List (Reset × ℕ) → LossRow D → LossRow D
  reset_row_all [] row = row
  reset_row_all ((w, at) ∷ ws) row = reset_row_all ws (reset_row w at row)

  -- What a set of resets makes of a row.
  cleared : Bool → Bool → Bool → ℕ → LossRow D → LossRow D
  cleared day session hour at row = record row {
    losses_today = if day then some nought else row.losses_today;
    losses_session = if session then some 0 else row.losses_session;
    losses_this_1h_5m = if hour then some 0 else row.losses_this_1h_5m;
    losses_this_1h_1m = if hour then some 0 else row.losses_this_1h_1m;
    updated_at = at;
  }

  cleared_by : List Reset → ℕ → LossRow D → LossRow D
  unfolding cleared has
  cleared_by ws at row =
      cleared (has daily_reset ws) (has session_reset ws) (has hourly_reset ws) at row

  cleared-not :
      (day session hour : Bool) (at : ℕ) (row : LossRow D)
      → cleared (not day) session (not hour) at row ≡ record row {
        losses_today = if day then row.losses_today else some nought;
        losses_session = if session then some 0 else row.losses_session;
        losses_this_1h_5m = if hour then row.losses_this_1h_5m else some 0;
        losses_this_1h_1m = if hour then row.losses_this_1h_1m else some 0;
        updated_at = at;
      }
  unfolding cleared
  cleared-not true session true at row = refl
  cleared-not true session false at row = refl
  cleared-not false session true at row = refl
  cleared-not false session false at row = refl

  reset_row_all-cleared :
      (ws : List (Reset × ℕ)) (row : LossRow D)
      → reset_row_all ws row ≡ cleared_by (resets_of ws) (last_time row.updated_at ws) row
  unfolding reset_row_all reset_row cleared has cleared_by
  reset_row_all-cleared [] row = refl
  reset_row_all-cleared ((daily_reset, at) ∷ ws) row =
      ground (arith, reset_row_all-cleared ws (clear_daily at row))
  reset_row_all-cleared ((session_reset, at) ∷ ws) row =
      ground (arith, reset_row_all-cleared ws (clear_session at row))
  reset_row_all-cleared ((hourly_reset, at) ∷ ws) row =
      ground (arith, reset_row_all-cleared ws (clear_hourly at row))

  run_reset-row :
      (symbol : Text) (exchange : Exchange) (w : Reset) (at : ℕ) (db : List (LossRow D))
      → run_reset symbol exchange w at db
        ≡ update_where (at_key symbol exchange) (reset_row w at) db
  unfolding run_reset reset_row
  run_reset-row symbol exchange daily_reset at db = refl
  run_reset-row symbol exchange session_reset at db = refl
  run_reset-row symbol exchange hourly_reset at db = refl

  update_where_fuse :
      (symbol : Text) (exchange : Exchange) (w : Reset) (at : ℕ) (ws : List (Reset × ℕ))
      (db : List (LossRow D))
      → update_where
          (at_key symbol exchange)
          (reset_row_all ws)
          (update_where (at_key symbol exchange) (reset_row w at) db)
        ≡ update_where (at_key symbol exchange) (reset_row_all ((w, at) ∷ ws)) db
  unfolding reset_row_all reset_row
  update_where_fuse symbol exchange w at ws [] = refl
  update_where_fuse symbol exchange w at ws (row ∷ db) =
      ground (arith, update_where_fuse symbol exchange w at ws db)

  update_where_id :
      (symbol : Text) (exchange : Exchange) (db : List (LossRow D))
      → update_where (at_key symbol exchange) (reset_row_all []) db ≡ db
  unfolding reset_row_all
  update_where_id symbol exchange [] = refl
  update_where_id symbol exchange (row ∷ db) = ground (arith, update_where_id symbol exchange db)

  run_resets-row :
      (symbol : Text) (exchange : Exchange) (ws : List (Reset × ℕ)) (db : List (LossRow D))
      → run_resets symbol exchange ws db
        ≡ update_where (at_key symbol exchange) (reset_row_all ws) db
  unfolding run_resets
  run_resets-row symbol exchange [] db = sym (update_where_id symbol exchange db)
  run_resets-row symbol exchange ((w, at) ∷ ws) db =
      run_resets-row symbol exchange ws (run_reset symbol exchange w at db)
      ∙ (rw (run_reset-row symbol exchange w at db) (update_where_fuse symbol exchange w at ws db))

  module _ (calendar : Calendar) (utc : IsUtc calendar) (now : ℕ) (last : LastResets) where
    cleared_by-due :
        (at : ℕ) (row : LossRow D)
        → cleared_by (pending_resets (due_resets calendar now last)) at row
          ≡ record (refreshed now last [] row) { updated_at = at }
    unfolding cleared_by cleared
    cleared_by-due at row =
        let (day, session, hour) = has_due calendar utc now last in
        rw (day, session, hour)
          (cleared-not (now / 86_400_000 == last.last_daily_reset / 86_400_000)
            (has_started now last.session_start_time)
            (now / 3_600_000 == last.last_hourly_reset / 3_600_000) at row)

    reset_row_all-refreshed :
        (ws : List (Reset × ℕ))
        → ((w : Reset)
            → IsIn w (resets_of ws) ↔ IsIn w (pending_resets (due_resets calendar now last)))
        → (row : LossRow D) → reset_row_all ws row ≡ refreshed now last ws row
    unfolding cleared_by cleared
    reset_row_all-refreshed ws h row =
        let us = resets_of ws in
        let due = pending_resets (due_resets calendar now last) in
        reset_row_all-cleared ws row
        ∙ (rw
            (
              has_congr daily_reset us due (h daily_reset),
              has_congr session_reset us due (h session_reset),
              has_congr hourly_reset us due (h hourly_reset),
            )
            (cleared_by-due (last_time row.updated_at ws) row))

    run_resets-refreshed :
        (db : List (LossRow D)) (symbol : Text) (exchange : Exchange) (ws : List (Reset × ℕ))
        → ((w : Reset)
            → IsIn w (resets_of ws) ↔ IsIn w (pending_resets (due_resets calendar now last)))
        → run_resets symbol exchange ws db
          ≡ update_where (at_key symbol exchange) (refreshed now last ws) db
    run_resets-refreshed db symbol exchange ws h =
        run_resets-row symbol exchange ws db ∙ (rw (fun_ext (reset_row_all-refreshed ws h)) refl)

    -- On the days and hours of UTC, the due resets, in any order and with repetitions, leave the same
    -- table as the run of the code but for the times of the writes: in the rows of the market the
    -- counters of another day, of a session that has started and of another hour are cleared, all
    -- others stay, and the time is that of the last write; no other row changes.
    pub reset_all_expired_order :
        (db : List (LossRow D)) (symbol : Text) (exchange : Exchange) (clock : Reset → ℕ)
        (ws : List (Reset × ℕ))
        → ((w : Reset)
            → IsIn w (resets_of ws) ↔ IsIn w (pending_resets (due_resets calendar now last)))
        → (run_resets symbol exchange ws db
            ≡ update_where (at_key symbol exchange) (refreshed now last ws) db)
          × ((reset_all_expired calendar db symbol exchange now last clock).1
              ≡ update_where
                  (at_key symbol exchange)
                  (refreshed now last
                    (map (λ w. (w, clock w)) (pending_resets (due_resets calendar now last))))
                  db)
    unfolding reset_all_expired
    reset_all_expired_order db symbol exchange clock ws h = (
      run_resets-refreshed db symbol exchange ws h,
      run_resets-refreshed db symbol exchange
          (map (λ w. (w, clock w)) (pending_resets (due_resets calendar now last)))
          (λ w.
            rw (resets_of-map clock (pending_resets (due_resets calendar now last)))
              (λ m. m, λ m. m)),
    )
