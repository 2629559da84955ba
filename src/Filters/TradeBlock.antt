-- ===== src/Filters/TradeBlock.antt =====
-- filters/trade-block.ts. A time is milliseconds; `utc_hours` and `utc_minutes` stand for the methods of
-- Date. The start of a market window is floor(utc_hour * 60). A funding window may start at half a
-- minute, so its tests are stated in half minutes, and without subtraction. A rule is of one of the two
-- kinds, not always that of its block type; `source_data` is left out.
pub mod Windows
pub mod Blocked
pub mod Seeds
use combine_trade.Prelude.{
  ℕ, ◌+◌, ◌*◌, Bool, true, false, not, ◌&&◌, ◌||◌, List, [], ◌∷◌, Option, none, some, Text, codes,
  eq_text, any, filter, find, if◌then◌else◌, ltb, leb, Result, ok, err,
}

pub data BlockType : Type 0 where
  economic funding manual market_open : BlockType

pub record MarketOpenRule : Type 0 where
  pub start_minutes : ℕ
  pub duration_min : ℕ

pub record FundingRule : Type 0 where
  pub utc_hours : List ℕ
  pub duration_min : ℕ

pub data RecurrenceRule : Type 0 where
  market_rule : MarketOpenRule → RecurrenceRule
  funding_rule : FundingRule → RecurrenceRule

pub record TradeBlockRow : Type 0 where
  pub block_type : BlockType
  pub start_time : ℕ
  pub end_time : ℕ
  pub reason : Option Text
  pub is_recurring : Bool
  pub recurrence_rule : Option RecurrenceRule

abbrev pub type_name : BlockType → Text
type_name economic = codes "ECONOMIC"
type_name funding = codes "FUNDING"
type_name manual = codes "MANUAL"
type_name market_open = codes "MARKET_OPEN"

-- `now` in minutes of the day.
unfoldable pub is_in_market_open_window : MarketOpenRule → ℕ → Bool
is_in_market_open_window rule minutes =
    if leb 1_440 (rule.start_minutes + rule.duration_min)
    then leb rule.start_minutes minutes
      || ltb (minutes + 1_440) (rule.start_minutes + rule.duration_min)
    else leb rule.start_minutes minutes && ltb minutes (rule.start_minutes + rule.duration_min)

-- The window around one hour; the three cases are start < 0, end >= 1440, and the rest.
unfoldable pub is_in_funding_window_of : ℕ → ℕ → ℕ → Bool
is_in_funding_window_of duration hour minutes =
    if ltb (120 * hour) duration
    then leb (2_880 + 120 * hour) (2 * minutes + duration)
      || ltb (2 * minutes) (120 * hour + duration)
    else if leb 2_880 (120 * hour + duration)
    then leb (120 * hour) (2 * minutes + duration)
      || ltb (2 * minutes + 2_880) (120 * hour + duration)
    else leb (120 * hour) (2 * minutes + duration) && ltb (2 * minutes) (120 * hour + duration)

unfoldable pub is_in_funding_window : FundingRule → ℕ → Bool
unfolding is_in_funding_window_of
is_in_funding_window rule minutes =
    any (λ hour. is_in_funding_window_of rule.duration_min hour minutes) rule.utc_hours

-- Nothing where it throws: a market's rule has no hours to go through. The start of a funding rule is
-- NaN minutes, which no comparison accepts.
unfoldable pub matches_recurrence_rule : BlockType → RecurrenceRule → ℕ → Option Bool
unfolding is_in_market_open_window is_in_funding_window
matches_recurrence_rule market_open (market_rule rule) minutes =
    some (is_in_market_open_window rule minutes)
matches_recurrence_rule market_open (funding_rule rule) minutes = some false
matches_recurrence_rule funding (funding_rule rule) minutes =
    some (is_in_funding_window rule minutes)
matches_recurrence_rule funding (market_rule rule) minutes = none
matches_recurrence_rule _ rule minutes = some false

-- What isTradeBlocked returns.
pub record TradeBlockResult : Type 0 where
  pub blocked : Bool
  pub reason : Option Text

abbrev pub reason_or_type : TradeBlockRow → Text
reason_or_type row = elim row.reason [ none ↦ type_name row.block_type | some reason ↦ reason ]

abbrev pub blocked_by : TradeBlockRow → TradeBlockResult
blocked_by row = record { blocked = true; reason = some (reason_or_type row) }

abbrev pub not_blocked : TradeBlockResult
not_blocked = record { blocked = false; reason = none }

abbrev pub fail_closed : TradeBlockResult
fail_closed = record { blocked = true; reason = some (codes "DB error — fail-closed") }

unfoldable pub row_matches : ℕ → TradeBlockRow → Option Bool
unfolding matches_recurrence_rule
row_matches minutes row = elim row.recurrence_rule [
  | none ↦ some false
  | some rule ↦ matches_recurrence_rule row.block_type rule minutes
]

-- The two queries.
abbrev pub recurring_rows : List TradeBlockRow → List TradeBlockRow
recurring_rows rows = filter (λ (r : TradeBlockRow). r.is_recurring) rows

abbrev pub one_time_rows : List TradeBlockRow → ℕ → List TradeBlockRow
one_time_rows rows now =
    filter
      (λ (r : TradeBlockRow). not r.is_recurring && (leb r.start_time now && leb now r.end_time))
      rows

abbrev first_blocks : List TradeBlockRow → TradeBlockResult
first_blocks [] = not_blocked
first_blocks (row ∷ rows) = blocked_by row

-- What a row makes of the answer of the rows after it; an exception is caught.
abbrev pub answered : TradeBlockRow → Option Bool → TradeBlockResult → TradeBlockResult
answered row none otherwise = fail_closed
answered row (some true) otherwise = blocked_by row
answered row (some false) otherwise = otherwise

unfoldable pub recurring_answer : ℕ → List TradeBlockRow → TradeBlockResult → TradeBlockResult
unfolding row_matches
recurring_answer minutes [] otherwise = otherwise
recurring_answer minutes (row ∷ rows) otherwise =
    answered row (row_matches minutes row) (recurring_answer minutes rows otherwise)

one_time_answer : ℕ → Result Text (List TradeBlockRow) → TradeBlockResult
one_time_answer now (ok rows) = first_blocks (one_time_rows rows now)
one_time_answer now (err message) = fail_closed

-- `first` and `second` are what the database answers to the two queries, before their conditions.
unfoldable pub answer_blocked :
    ℕ → ℕ → Result Text (List TradeBlockRow) → Result Text (List TradeBlockRow) → TradeBlockResult
unfolding recurring_answer one_time_answer
answer_blocked minutes now (ok rows) second =
    recurring_answer minutes (recurring_rows rows) (one_time_answer now second)
answer_blocked minutes now (err message) second = fail_closed

module _ (utc_hours utc_minutes : ℕ → ℕ) where
  abbrev pub minute_of_day : ℕ → ℕ
  minute_of_day now = utc_hours now * 60 + utc_minutes now

  unfoldable pub is_trade_blocked :
      Result Text (List TradeBlockRow) → Result Text (List TradeBlockRow) → ℕ → TradeBlockResult
  unfolding answer_blocked
  is_trade_blocked first second now = answer_blocked (minute_of_day now) now first second
