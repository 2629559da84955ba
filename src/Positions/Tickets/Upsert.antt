-- ===== src/Positions/Tickets/Upsert.antt =====
-- upsertSymbolState of positions/ticket-manager.ts. A field of the patch is `none` where it is left out
-- and `some none` where it is null. The pair of symbol and exchange is unique among the rows.
use combine_trade.Prelude.{
  ℕ, not, List, [], ◌∷◌, Option, none, some, Text, eq_text_refl, find, filter, update_where, ◌≡◌,
  refl, find-update_where, arith,
}
use combine_trade.Core.Types.{Exchange, eq_exchange_iff, FsmState, idle, DailyBias}
use combine_trade.Core.Decimal.{Decimal, nought}
use combine_trade.Positions.Tickets.{SymbolStateRow, ExecutionMode, analysis, Db, row_at}

pub record SymbolStatePatch (D : Type 0) : Type 0 where
  pub fsm_state : Option FsmState
  pub execution_mode : Option ExecutionMode
  pub daily_bias : Option (Option DailyBias)
  pub daily_open : Option (Option D)
  pub session_box_high : Option (Option D)
  pub session_box_low : Option (Option D)
  pub losses_today : Option (Option D)
  pub losses_session : Option (Option ℕ)
  pub losses_this_1h_5m : Option (Option ℕ)
  pub losses_this_1h_1m : Option (Option ℕ)

-- `x ?? y`
abbrev pub given {ℓ} : {A : Type ℓ} → Option A → A → A
given none y = y
given (some x) y = x

-- `x ?? null`
abbrev pub or_null {ℓ} : {A : Type ℓ} → Option (Option A) → Option A
or_null none = none
or_null (some x) = x

module _ {D : Type 0} where
  -- The SET clause: only the fields of the patch, and the time.
  unfoldable pub patch_row : SymbolStatePatch D → ℕ → SymbolStateRow D → SymbolStateRow D
  patch_row patch now row = record row {
    fsm_state = given patch.fsm_state row.fsm_state;
    execution_mode = given patch.execution_mode row.execution_mode;
    daily_bias = given patch.daily_bias row.daily_bias;
    daily_open = given patch.daily_open row.daily_open;
    session_box_high = given patch.session_box_high row.session_box_high;
    session_box_low = given patch.session_box_low row.session_box_low;
    losses_today = given patch.losses_today row.losses_today;
    losses_session = given patch.losses_session row.losses_session;
    losses_this_1h_5m = given patch.losses_this_1h_5m row.losses_this_1h_5m;
    losses_this_1h_1m = given patch.losses_this_1h_1m row.losses_this_1h_1m;
    updated_at = now;
  }

module _ {D : Type 0} ⦃dec : Decimal D⦄ where
  unfoldable pub insert_row : Text → Exchange → SymbolStatePatch D → Text → ℕ → SymbolStateRow D
  insert_row symbol exchange patch id now = record {
    id = id;
    symbol = symbol;
    exchange = exchange;
    fsm_state = given patch.fsm_state idle;
    execution_mode = given patch.execution_mode analysis;
    daily_bias = or_null patch.daily_bias;
    daily_open = or_null patch.daily_open;
    session_box_high = or_null patch.session_box_high;
    session_box_low = or_null patch.session_box_low;
    losses_today = some (given (or_null patch.losses_today) nought);
    losses_session = some (given (or_null patch.losses_session) 0);
    losses_this_1h_5m = some (given (or_null patch.losses_this_1h_5m) 0);
    losses_this_1h_1m = some (given (or_null patch.losses_this_1h_1m) 0);
    updated_at = now;
  }

  -- The row that is there, if any, is in conflict with the new one.
  unfoldable pub on_conflict :
      Option (SymbolStateRow D)
      → Db D
      → Text
      → Exchange
      → SymbolStatePatch D
      → Text
      → ℕ
      → SymbolStateRow D × Db D
  unfolding patch_row insert_row
  on_conflict none db symbol exchange patch id now = (
    insert_row symbol exchange patch id now,
    record db { symbol_states = insert_row symbol exchange patch id now ∷ db.symbol_states },
  )
  on_conflict (some row) db symbol exchange patch id now = (
    patch_row patch now row,
    record db {
      symbol_states = update_where (row_at symbol exchange) (patch_row patch now) db.symbol_states;
    },
  )

  unfoldable pub upsert_symbol_state :
      Db D → Text → Exchange → SymbolStatePatch D → Text → ℕ → SymbolStateRow D × Db D
  unfolding on_conflict
  upsert_symbol_state db symbol exchange =
      on_conflict (find (row_at symbol exchange) db.symbol_states) db symbol exchange

  patch-others :
      (symbol : Text) (exchange : Exchange) (patch : SymbolStatePatch D) (now : ℕ)
      (rows : List (SymbolStateRow D))
      → filter
          (λ r. not (row_at symbol exchange r))
          (update_where (row_at symbol exchange) (patch_row patch now) rows)
        ≡ filter (λ r. not (row_at symbol exchange r)) rows
  unfolding patch_row
  patch-others symbol exchange patch now [] = refl
  patch-others symbol exchange patch now (r ∷ rows) =
      ground (arith, patch-others symbol exchange patch now rows)

  abbrev pub Upserted : Db D → Text → Exchange → SymbolStateRow D × Db D → Type 0
  Upserted db symbol exchange made =
      (find (row_at symbol exchange) made.1.symbol_states ≡ some made.0)
      × (filter (λ r. not (row_at symbol exchange r)) made.1.symbol_states
          ≡ filter (λ r. not (row_at symbol exchange r)) db.symbol_states)
      × (made.1.tickets ≡ db.tickets)

  on_conflict-Upserted :
      (found : Option (SymbolStateRow D)) (db : Db D) (symbol : Text) (exchange : Exchange)
      (patch : SymbolStatePatch D) (id : Text) (now : ℕ)
      → find (row_at symbol exchange) db.symbol_states ≡ found
      → Upserted db symbol exchange (on_conflict found db symbol exchange patch id now)
  unfolding on_conflict insert_row patch_row
  on_conflict-Upserted none db symbol exchange patch id now e =
      rw (eq_text_refl symbol, (eq_exchange_iff exchange exchange).1 refl) (refl, refl, refl)
  on_conflict-Upserted (some row) db symbol exchange patch id now e = (
    find-update_where (row_at symbol exchange) (patch_row patch now) db.symbol_states row
        (λ x. refl) e,
    patch-others symbol exchange patch now db.symbol_states,
    refl,
  )

  -- After an upsert the market reads as the row that was returned, and the rows of other markets and
  -- the tickets are as before.
  pub upsert_symbol_state-Upserted :
      (db : Db D) (symbol : Text) (exchange : Exchange) (patch : SymbolStatePatch D) (id : Text)
      (now : ℕ)
      → Upserted db symbol exchange (upsert_symbol_state db symbol exchange patch id now)
  unfolding upsert_symbol_state
  upsert_symbol_state-Upserted db symbol exchange patch id now =
      on_conflict-Upserted _ db symbol exchange patch id now refl
