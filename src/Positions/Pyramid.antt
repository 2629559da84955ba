-- ===== src/Positions/Pyramid.antt =====
-- positions/pyramid.ts. The entry executor, which the caller injects, is a function on a world `X`; the id
-- of the new row and the time are arguments. The columns that the code tests for null are not nullable.
pub mod Entry
pub mod Allowed
pub mod Child
pub mod Stranded
use combine_trade.Prelude.{
  ℕ, zero, suc, ◌+◌, Bool, true, false, not, ◌||◌, List, [], ◌∷◌, Option, none, some, Text, codes,
  eq_text, any, update_where, Result, ok, err, ◌>>=◌, ◌>>◌, throw_if, if◌then◌else◌, leb, ltb,
}
use combine_trade.Prelude.Int.{ℤ, pos, negsuc}
use combine_trade.Prelude.State.{State}
use combine_trade.Core.Types.{
  Exchange, Direction, long, short, TicketState, initial, tp1_hit, tp2_hit, eq_state,
  VectorTimeframe, Error, foreign_key_violation,
}
use combine_trade.Core.CommonCode.{
  CommonCodeValue, integer, fraction, other, text, CommonCodeRow, active_code, parse_int,
}
use combine_trade.Core.Decimal.{Decimal, gte, lte}
use combine_trade.Positions.Sizer.{
  ExchangeSymbolInfo, SizeParams, SizeResult, get_risk_pct, calculate_size,
}
use combine_trade.Positions.Tickets.{TicketRow, Db, has_id}
use combine_trade.Positions.Tickets.Operations.{insert_ticket}

pub record PyramidConfig : Type 0 where
  pub max_pyramid_count : ℕ

pub record PyramidCheckResult : Type 0 where
  pub allowed : Bool
  pub reason : Option Text

pub record PyramidSignal (D : Type 0) : Type 0 where
  pub id : Text
  pub entry_price : D
  pub sl_price : D
  pub direction : Direction
  pub timeframe : VectorTimeframe
  pub tp1_price : Option D
  pub tp2_price : Option D

-- What the injected executor is given; the mode is always live.
pub record EntryRequest (D S : Type 0) : Type 0 where
  pub symbol : Text
  pub exchange : Exchange
  pub direction : Direction
  pub entry_price : D
  pub sl_price : D
  pub size : D
  pub leverage : ℕ
  pub slippage_config : S

pub record EntryResult (D : Type 0) : Type 0 where
  pub success : Bool
  -- entryOrder?.filled_price
  pub filled_price : Option D
  pub abort_reason : Option Text

pub data PyramidError : Type 0 where
  not_allowed : Option Text → PyramidError
  sizing_failed : PyramidError
  entry_failed : Text → PyramidError
  entry_threw : Text → PyramidError
  thrown : Error → PyramidError

pub record ExecutePyramidParams (D S X : Type 0) : Type 0 where
  pub parent_ticket : TicketRow D
  pub signal : PyramidSignal D
  pub balance : D
  pub exchange_info : ExchangeSymbolInfo D
  pub slippage_config : S
  pub config : PyramidConfig
  pub execute_entry : EntryRequest D S → State X (Result Text (EntryResult D))

abbrev pub default_max_pyramid_count : ℕ
default_max_pyramid_count = 2

abbrev pub count_or_zero : Option ℕ → ℕ
count_or_zero none = 0
count_or_zero (some n) = n

-- PYRAMID_ELIGIBLE_STATES.has(state)
abbrev pub is_eligible : TicketState → Bool
is_eligible state = eq_state state tp1_hit || eq_state state tp2_hit

abbrev pub refused_for : Text → PyramidCheckResult
refused_for reason = record { allowed = false; reason = some reason }

abbrev positive_or_default : ℤ → PyramidConfig
positive_or_default (pos zero) = record { max_pyramid_count = default_max_pyramid_count }
positive_or_default (pos (suc n)) = record { max_pyramid_count = suc n }
positive_or_default (negsuc n) = record { max_pyramid_count = default_max_pyramid_count }

config_of : CommonCodeValue → PyramidConfig
unfolding parse_int
config_of (integer n) = positive_or_default n
config_of (text s) = elim (parse_int s) [
  | none ↦ record { max_pyramid_count = default_max_pyramid_count }
  | some n ↦ positive_or_default n
]
config_of _ = record { max_pyramid_count = default_max_pyramid_count }

unfoldable pub load_pyramid_config : List CommonCodeRow → PyramidConfig
unfolding active_code config_of
load_pyramid_config rows = elim (active_code (codes "POSITION") (codes "max_pyramid_count") rows) [
  | none ↦ record { max_pyramid_count = default_max_pyramid_count }
  | some row ↦ config_of row.value
]

module _ {D : Type 0} ⦃dec : Decimal D⦄ where
  -- The stop is at the entry price or beyond it.
  abbrev pub at_breakeven : Direction → D → D → Bool
  at_breakeven long stop entry = gte stop entry
  at_breakeven short stop entry = lte stop entry

  unfoldable pub can_pyramid : TicketRow D → PyramidConfig → PyramidCheckResult
  can_pyramid t config =
      if not (is_eligible t.state)
      then refused_for (codes "TP1 not reached")
      else if not (at_breakeven t.direction t.current_sl_price t.entry_price)
      then refused_for (codes "SL not at breakeven")
      else if leb config.max_pyramid_count (count_or_zero t.pyramid_count)
      then refused_for (codes "max pyramid reached")
      else record { allowed = true; reason = none }
