-- ===== src/Exits/Checker.antt =====
-- exits/checker.ts: the exit that a price and a time call for, its size, and the excursions.
-- Times are milliseconds. `-` on ℕ stops at 0, where the source has a negative duration: neither is
-- above the threshold.
pub mod Fires
pub mod Sizes
pub mod Excursions
use combine_trade.Prelude.{
  ℕ, ◌-◌, ◌*◌, Bool, true, false, not, ◌&&◌, Option, none, some, if◌then◌else◌, ltb,
}
use combine_trade.Core.Types.{
  TicketState, initial, tp1_hit, tp2_hit, closed, Direction, long, short, Timeframe, d1, h1, m5, m1,
  CloseReason, eq_state, eq_direction,
}
use combine_trade.Core.Decimal.{Decimal, nought, lit, sub, mul, max, gt, gte, lte}

-- 60 hours
abbrev pub time_exit_threshold_ms : ℕ
time_exit_threshold_ms = 60 * 3600 * 1000

pub data ExitActionType : Type 0 where
  tp1 tp2 time_exit no_exit : ExitActionType

pub record ExitAction (D : Type 0) : Type 0 where
  pub type : ExitActionType
  pub close_size : D
  pub close_reason : Option CloseReason

pub record CheckExitInput (D : Type 0) : Type 0 where
  pub state : TicketState
  pub direction : Direction
  pub entry_price : D
  pub tp1_price : Option D
  pub tp2_price : Option D
  pub size : D
  pub remaining_size : D
  pub opened_at : ℕ

pub record MfeMaeResult (D : Type 0) : Type 0 where
  pub mfe : D
  pub mae : D

-- `timeframe === undefined || timeframe === "5M"`
unfoldable pub checks_targets : Option Timeframe → Bool
checks_targets none = true
checks_targets (some m5) = true
checks_targets (some _) = false

module _ {D : Type 0} ⦃dec : Decimal D⦄ where
  unfoldable pub is_tp_hit : Direction → D → D → Bool
  is_tp_hit long current_price tp_price = gte current_price tp_price
  is_tp_hit short current_price tp_price = lte current_price tp_price

  -- `tp_price !== null && isTpHit(…)`
  unfoldable pub reaches : Direction → D → Option D → Bool
  unfolding is_tp_hit
  reaches direction current_price none = false
  reaches direction current_price (some tp_price) = is_tp_hit direction current_price tp_price

  unfoldable pub calc_close_size : CheckExitInput D → ExitActionType → D
  calc_close_size t tp1 = mul t.size (lit 5 1)
  calc_close_size t tp2 = dec.divided_by t.remaining_size (lit 2 0)
  calc_close_size t time_exit = t.remaining_size
  calc_close_size t no_exit = nought

  abbrev none_action : ExitAction D
  none_action = record { type = no_exit; close_size = nought; close_reason = none }

  unfoldable pub check_exit : CheckExitInput D → D → ℕ → Option Timeframe → ExitAction D
  unfolding checks_targets reaches calc_close_size
  check_exit t current_price now timeframe =
      if eq_state t.state closed
      then none_action
      else if ltb time_exit_threshold_ms (now - t.opened_at)
      then record {
        type = time_exit;
        close_size = t.remaining_size;
        close_reason = some CloseReason.time_exit;
      }
      else if not (checks_targets timeframe)
      then none_action
      else if eq_state t.state initial && reaches t.direction current_price t.tp1_price
      then record {
        type = tp1;
        close_size = calc_close_size t tp1;
        close_reason = some CloseReason.tp1;
      }
      else if eq_state t.state tp1_hit && reaches t.direction current_price t.tp2_price
      then record {
        type = tp2;
        close_size = calc_close_size t tp2;
        close_reason = some CloseReason.tp2;
      }
      else none_action

  -- The move in the position's favour, and against it.
  abbrev pub raw_favorable : Direction → D → D → D
  raw_favorable long entry current = sub current entry
  raw_favorable short entry current = sub entry current

  abbrev pub raw_adverse : Direction → D → D → D
  raw_adverse long entry current = sub entry current
  raw_adverse short entry current = sub current entry

  abbrev pub clamp : D → D
  clamp x = if gt x nought then x else nought

  unfoldable pub calc_mfe_mae : D → D → Direction → D → D → MfeMaeResult D
  calc_mfe_mae entry current direction prev_mfe prev_mae = record {
    mfe = max prev_mfe (clamp (raw_favorable direction entry current));
    mae = max prev_mae (clamp (raw_adverse direction entry current));
  }
