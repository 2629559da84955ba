-- ===== src/Candles/Gaps.antt =====
-- candles/gap-detection.ts. The query is a parameter: the opening times, in order, of the candles between
-- `from` and `to`.
use combine_trade.Prelude.{
  ℕ, ◌+◌, ◌-◌, ◌*◌, ◌/◌, List, [], ◌∷◌, Option, none, some, ltb, leb, if◌then◌else◌,
}
use combine_trade.Core.Types.{Timeframe, d1, h1, m5, m1}

pub record CandleGap : Type 0 where
  pub start : ℕ
  pub end : ℕ
  pub expected_count : ℕ

unfoldable pub get_timeframe_duration_ms : Timeframe → ℕ
get_timeframe_duration_ms d1 = 86_400_000
get_timeframe_duration_ms h1 = 3_600_000
get_timeframe_duration_ms m5 = 300_000
get_timeframe_duration_ms m1 = 60_000

-- Math.round(x / y)
abbrev pub round_div : ℕ → ℕ → ℕ
round_div x y = (2 * x + y) / (2 * y)

abbrev pub at_least_one : ℕ → ℕ
at_least_one n = if ltb n 1 then 1 else n

-- A difference of more than one and a half durations is a gap.
unfoldable pub gap_between : ℕ → ℕ → ℕ → Option CandleGap
gap_between duration curr next =
    if ltb (3 * duration) (2 * (next - curr))
    then some (record {
      start = curr + duration;
      end = next - duration;
      expected_count = round_div (next - curr - duration) duration;
    })
    else none

abbrev pub push_gap : Option CandleGap → List CandleGap → List CandleGap
push_gap none gaps = gaps
push_gap (some gap) gaps = gap ∷ gaps

unfoldable pub gaps_after : ℕ → ℕ → List ℕ → List CandleGap
unfolding gap_between
gaps_after duration curr [] = []
gaps_after duration curr (next ∷ rest) =
    push_gap (gap_between duration curr next) (gaps_after duration next rest)

abbrev pub joined : CandleGap → CandleGap → CandleGap
joined prev curr = record prev {
  end = curr.end;
  expected_count = prev.expected_count + curr.expected_count;
}

-- The last gap of the result and the gaps that are left.
unfoldable pub merge_into : ℕ → CandleGap → List CandleGap → List CandleGap
merge_into duration prev [] = prev ∷ []
merge_into duration prev (curr ∷ rest) =
    let merged = merge_into duration (joined prev curr) rest in
    let apart = prev ∷ merge_into duration curr rest in
    if leb (2 * curr.start) (2 * prev.end + 3 * duration) then merged else apart

unfoldable pub merge_gaps : ℕ → List CandleGap → List CandleGap
unfolding merge_into
merge_gaps duration [] = []
merge_gaps duration (gap ∷ gaps) = merge_into duration gap gaps

unfoldable pub detect_gaps : Timeframe → ℕ → ℕ → List ℕ → List CandleGap
unfolding get_timeframe_duration_ms gaps_after merge_gaps
detect_gaps timeframe from to [] =
    record {
      start = from;
      end = to;
      expected_count = at_least_one (round_div (to - from) (get_timeframe_duration_ms timeframe));
    }
    ∷ []
detect_gaps timeframe from to (first ∷ rest) =
    merge_gaps (get_timeframe_duration_ms timeframe)
      (gaps_after (get_timeframe_duration_ms timeframe) first rest)
