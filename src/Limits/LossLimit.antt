-- ===== src/Limits/LossLimit.antt =====
-- limits/loss-limit.ts. The table symbol_state is the list of its rows; a missing counter reads as
-- zero, as COALESCE makes it. The UTC parts of a date are parameters.
pub mod Check
pub mod Counters
pub mod Resets
use combine_trade.Prelude.{
  ℕ, ◌+◌, Bool, true, false, not, ◌&&◌, List, [], ◌∷◌, ◌++◌, Option, none, some, Text, eq_text,
  if◌then◌else◌, leb, ◌==◌, update_where, map,
}
use combine_trade.Core.Types.{Exchange, VectorTimeframe, m5, m1, eq_exchange}
use combine_trade.Core.Decimal.{Decimal, nought, lit, add, mul, gte}

pub data LossViolation : Type 0 where
  daily session hourly_5m hourly_1m : LossViolation

pub record LossLimitResult : Type 0 where
  pub allowed : Bool
  pub violations : List LossViolation

pub record AccountDailyLimitResult (D : Type 0) : Type 0 where
  pub allowed : Bool
  pub total_losses_today : D
  pub threshold : D

pub record LossLimitConfig (D : Type 0) : Type 0 where
  pub max_daily_loss_pct : D
  pub max_session_losses : ℕ
  pub max_hourly_5m : ℕ
  pub max_hourly_1m : ℕ

pub record SymbolLossState (D : Type 0) : Type 0 where
  pub losses_today : D
  pub losses_session : ℕ
  pub losses_this_hour_5m : ℕ
  pub losses_this_hour_1m : ℕ

-- The columns of symbol_state that the limits read and write.
pub record LossRow (D : Type 0) : Type 0 where
  pub symbol : Text
  pub exchange : Exchange
  pub losses_today : Option D
  pub losses_session : Option ℕ
  pub losses_this_1h_5m : Option ℕ
  pub losses_this_1h_1m : Option ℕ
  pub updated_at : ℕ

pub record LastResets : Type 0 where
  pub last_daily_reset : ℕ
  pub last_hourly_reset : ℕ
  pub session_start_time : Option ℕ

pub record ResetResult : Type 0 where
  pub daily_reset : Bool
  pub session_reset : Bool
  pub hourly_reset : Bool

-- COALESCE(x, y)
abbrev pub coalesce : {A : Type 0} → Option A → A → A
coalesce none y = y
coalesce (some x) y = x

abbrev pub push_if {ℓ} : {A : Type ℓ} → Bool → A → List A → List A
push_if true x xs = x ∷ xs
push_if false x xs = xs

abbrev pub is_empty : List LossViolation → Bool
is_empty [] = true
is_empty (v ∷ vs) = false

module _ {D : Type 0} ⦃dec : Decimal D⦄ where
  unfoldable pub default_config : LossLimitConfig D
  default_config = record {
    max_daily_loss_pct = lit 10 2;
    max_session_losses = 3;
    max_hourly_5m = 2;
    max_hourly_1m = 1;
  }

  unfoldable pub violations_of : SymbolLossState D → D → LossLimitConfig D → List LossViolation
  violations_of state balance config =
      push_if (gte state.losses_today (mul balance config.max_daily_loss_pct)) daily (
        push_if (leb config.max_session_losses state.losses_session) session (
          push_if (leb config.max_hourly_5m state.losses_this_hour_5m) hourly_5m
            (push_if (leb config.max_hourly_1m state.losses_this_hour_1m) hourly_1m [])))

  unfoldable pub check_loss_limit : SymbolLossState D → D → LossLimitConfig D → LossLimitResult
  unfolding violations_of
  check_loss_limit state balance config = record {
    allowed = is_empty (violations_of state balance config);
    violations = violations_of state balance config;
  }

  -- `where symbol = … and exchange = …`
  abbrev pub at_key : Text → Exchange → LossRow D → Bool
  at_key symbol exchange row = eq_text row.symbol symbol && eq_exchange row.exchange exchange

  abbrev pub count_hourly : VectorTimeframe → LossRow D → LossRow D
  count_hourly m5 row = record row {
    losses_this_1h_5m = some (coalesce row.losses_this_1h_5m 0 + 1);
  }
  count_hourly m1 row = record row {
    losses_this_1h_1m = some (coalesce row.losses_this_1h_1m 0 + 1);
  }

  abbrev pub count_loss : D → VectorTimeframe → ℕ → LossRow D → LossRow D
  count_loss amount timeframe at row = count_hourly timeframe (record row {
    losses_today = some (add (coalesce row.losses_today nought) amount);
    losses_session = some (coalesce row.losses_session 0 + 1);
    updated_at = at;
  })

  unfoldable pub record_loss :
      List (LossRow D) → Text → Exchange → D → VectorTimeframe → ℕ → List (LossRow D)
  record_loss db symbol exchange amount timeframe at =
      update_where (at_key symbol exchange) (count_loss amount timeframe at) db

  -- SUM(losses_today), where SUM skips nulls.
  unfoldable pub sum_losses : List (LossRow D) → D
  sum_losses [] = nought
  sum_losses (row ∷ rows) = add (coalesce row.losses_today nought) (sum_losses rows)

  unfoldable pub check_account_daily_limit :
      List (LossRow D) → D → LossLimitConfig D → AccountDailyLimitResult D
  unfolding sum_losses
  check_account_daily_limit db balance config = record {
    allowed = not (gte (sum_losses db) (mul balance config.max_daily_loss_pct));
    total_losses_today = sum_losses db;
    threshold = mul balance config.max_daily_loss_pct;
  }

  abbrev pub clear_daily : ℕ → LossRow D → LossRow D
  clear_daily at row = record row { losses_today = some nought; updated_at = at }

  abbrev pub clear_session : ℕ → LossRow D → LossRow D
  clear_session at row = record row { losses_session = some 0; updated_at = at }

  abbrev pub clear_hourly : ℕ → LossRow D → LossRow D
  clear_hourly at row = record row {
    losses_this_1h_5m = some 0;
    losses_this_1h_1m = some 0;
    updated_at = at;
  }

  unfoldable pub reset_daily_losses : List (LossRow D) → Text → Exchange → ℕ → List (LossRow D)
  reset_daily_losses db symbol exchange at =
      update_where (at_key symbol exchange) (clear_daily at) db

  unfoldable pub reset_session_losses : List (LossRow D) → Text → Exchange → ℕ → List (LossRow D)
  reset_session_losses db symbol exchange at =
      update_where (at_key symbol exchange) (clear_session at) db

  unfoldable pub reset_hourly_losses : List (LossRow D) → Text → Exchange → ℕ → List (LossRow D)
  reset_hourly_losses db symbol exchange at =
      update_where (at_key symbol exchange) (clear_hourly at) db

-- The UTC getters of a date, given in milliseconds.
pub record Calendar : Type 0 where
  pub full_year : ℕ → ℕ
  pub month : ℕ → ℕ
  pub date : ℕ → ℕ
  pub hours : ℕ → ℕ

module _ (calendar : Calendar) where
  open calendar use {full_year, month, date, hours}

  -- The keys are texts of numbers joined by dashes: they are equal when all the numbers are.
  abbrev pub same_utc_date_key : ℕ → ℕ → Bool
  same_utc_date_key s t = full_year s == full_year t && month s == month t && date s == date t

  abbrev pub same_utc_hour_key : ℕ → ℕ → Bool
  same_utc_hour_key s t = same_utc_date_key s t && hours s == hours t

  unfoldable pub should_reset_daily : ℕ → ℕ → Bool
  should_reset_daily now last_reset_time = not (same_utc_date_key now last_reset_time)

  unfoldable pub should_reset_hourly : ℕ → ℕ → Bool
  should_reset_hourly now last_reset_time = not (same_utc_hour_key now last_reset_time)

unfoldable pub should_reset_session : ℕ → ℕ → Bool
should_reset_session now session_start_time = leb session_start_time now

-- `sessionStartTime !== undefined && …`
abbrev pub session_due : ℕ → Option ℕ → Bool
session_due now none = false
session_due now (some start) = should_reset_session now start

unfoldable pub due_resets : Calendar → ℕ → LastResets → ResetResult
unfolding should_reset_daily should_reset_hourly should_reset_session
due_resets calendar now last = record {
  daily_reset = should_reset_daily calendar now last.last_daily_reset;
  session_reset = session_due now last.session_start_time;
  hourly_reset = should_reset_hourly calendar now last.last_hourly_reset;
}

-- One of the writes that resetAllExpired starts and awaits together.
pub data Reset : Type 0 where
  daily_reset session_reset hourly_reset : Reset

unfoldable pub pending_resets : ResetResult → List Reset
pending_resets r =
    push_if r.daily_reset daily_reset
      (push_if r.session_reset session_reset (push_if r.hourly_reset hourly_reset []))

module _ {D : Type 0} ⦃dec : Decimal D⦄ where
  unfoldable pub run_reset : Text → Exchange → Reset → ℕ → List (LossRow D) → List (LossRow D)
  unfolding reset_daily_losses reset_session_losses reset_hourly_losses
  run_reset symbol exchange daily_reset at db = reset_daily_losses db symbol exchange at
  run_reset symbol exchange session_reset at db = reset_session_losses db symbol exchange at
  run_reset symbol exchange hourly_reset at db = reset_hourly_losses db symbol exchange at

  -- The writes in the order in which they happen, each with its time.
  unfoldable pub run_resets :
      Text → Exchange → List (Reset × ℕ) → List (LossRow D) → List (LossRow D)
  unfolding run_reset
  run_resets symbol exchange [] db = db
  run_resets symbol exchange ((w, at) ∷ ws) db =
      run_resets symbol exchange ws (run_reset symbol exchange w at db)

  -- `clock` is what `new Date()` gives in each write.
  unfoldable pub reset_all_expired :
      Calendar
      → List (LossRow D)
      → Text
      → Exchange
      → ℕ
      → LastResets
      → (Reset → ℕ)
      → ResetResult × List (LossRow D)
  unfolding due_resets pending_resets run_resets
  reset_all_expired calendar db symbol exchange now last clock =
      let due = due_resets calendar now last in
      (due, run_resets symbol exchange (map (λ w. (w, clock w)) (pending_resets due)) db)
