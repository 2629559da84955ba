-- ===== src/Signals/Sessions.antt =====
-- signals/watching.ts: the rows of watch sessions, with the states of the markets. The new row gets its id
-- and the time from the caller; a column whose text the code turns into a decimal is that decimal.
use combine_trade.Prelude.{
  ℕ, Bool, true, false, ◌&&◌, List, [], ◌∷◌, ◌++◌, Option, none, some, Text, codes, eq_text, find,
  update_where,
}
use combine_trade.Core.Types.{Exchange, FsmState, eq_fsm, idle, watching}
use combine_trade.Positions.Tickets.{SymbolStateRow, row_at, same_market}
use combine_trade.Daemon.Pipeline.{WatchSession, OpenWatchSessionParams}

pub record WatchSessionRow (D : Type 0) : Type 0 where
  pub session : WatchSession D
  pub invalidated_at : Option ℕ
  pub invalidation_reason : Option Text

-- The tables that the code reads and writes.
pub record WatchDb (D : Type 0) : Type 0 where
  pub sessions : List (WatchSessionRow D)
  pub symbol_states : List (SymbolStateRow D)

abbrev pub is_none {ℓ} : {A : Type ℓ} → Option A → Bool
is_none none = true
is_none (some a) = false

module _ {D : Type 0} where
  -- The active sessions of a market.
  abbrev pub watches : Text → Exchange → WatchSessionRow D → Bool
  watches symbol exchange row =
      same_market row.session.symbol row.session.exchange symbol exchange
      && is_none row.invalidated_at

  abbrev pub has_session_id : Text → WatchSessionRow D → Bool
  has_session_id id row = eq_text row.session.id id

  abbrev pub invalidated : ℕ → Text → WatchSessionRow D → WatchSessionRow D
  invalidated now reason row = record row {
    invalidated_at = some now;
    invalidation_reason = some reason;
  }

  -- UPDATE symbol_state …: from one state to another, and no other row.
  unfoldable pub move_symbol :
      Text → Exchange → FsmState → FsmState → ℕ → List (SymbolStateRow D) → List (SymbolStateRow D)
  move_symbol symbol exchange from to now =
      update_where (λ (r : SymbolStateRow D). row_at symbol exchange r && eq_fsm r.fsm_state from)
        (λ r. record r { fsm_state = to; updated_at = now })

  abbrev pub session_of : OpenWatchSessionParams D → Text → WatchSession D
  session_of params id = record {
    id = id;
    symbol = params.symbol;
    exchange = params.exchange;
    detection_type = params.detection_type;
    direction = params.direction;
    tp1_price = some params.tp1_price;
    tp2_price = some params.tp2_price;
    detected_at = params.detected_at;
  }

  -- UPDATE watch_session …: the active sessions of the market.
  abbrev pub close_active : Text → Exchange → ℕ → WatchDb D → WatchDb D
  close_active symbol exchange now db = record db {
    sessions =
        update_where (watches symbol exchange) (invalidated now (codes "new_session_started"))
          db.sessions;
  }

  -- INSERT INTO watch_session …
  abbrev pub insert_session : WatchSession D → WatchDb D → WatchDb D
  insert_session session db = record db {
    sessions =
        db.sessions
        ++ record { session = session; invalidated_at = none; invalidation_reason = none } ∷ [];
  }

  unfoldable pub watch_market : Text → Exchange → ℕ → WatchDb D → WatchDb D
  unfolding move_symbol
  watch_market symbol exchange now db = record db {
    symbol_states = move_symbol symbol exchange idle watching now db.symbol_states;
  }

  -- The three statements, which no transaction encloses: this is the run in which all of them go
  -- through with nothing in between. The unique index on the active sessions of a market then accepts
  -- the new row, since the first statement leaves no active one.
  unfoldable pub open_watch_session :
      WatchDb D → OpenWatchSessionParams D → Text → ℕ → WatchSession D × WatchDb D
  unfolding watch_market
  open_watch_session db params id now =
      let session = session_of params id in
      (
        session,
        watch_market params.symbol params.exchange now
            (insert_session session (close_active params.symbol params.exchange now db)),
      )

  abbrev pub market_of :
      Option (WatchSessionRow D) → ℕ → List (SymbolStateRow D) → List (SymbolStateRow D)
  unfolding move_symbol
  market_of none now states = states
  market_of (some row) now states =
      move_symbol row.session.symbol row.session.exchange watching idle now states

  unfoldable pub invalidate_watch_session : WatchDb D → Text → Text → ℕ → WatchDb D
  invalidate_watch_session db id reason now = record {
    sessions = update_where (has_session_id id) (invalidated now reason) db.sessions;
    symbol_states = market_of (find (has_session_id id) db.sessions) now db.symbol_states;
  }

  unfoldable pub update_watch_session_tp : WatchDb D → Text → D → D → WatchDb D
  update_watch_session_tp db id tp1 tp2 = record db {
    sessions =
        update_where (has_session_id id)
          (λ (row : WatchSessionRow D). record row {
            session = record row.session { tp1_price = some tp1; tp2_price = some tp2 };
          })
          db.sessions;
  }

  session_in : Option (WatchSessionRow D) → Option (WatchSession D)
  session_in none = none
  session_in (some row) = some row.session

  unfoldable pub get_active_watch_session : WatchDb D → Text → Exchange → Option (WatchSession D)
  unfolding session_in
  get_active_watch_session db symbol exchange =
      session_in (find (watches symbol exchange) db.sessions)
