-- ===== src/Candles/Missing.antt =====
-- What the gaps of candles/gap-detection.ts count.
use combine_trade.Prelude.{
  ℕ, suc, ◌+◌, ◌*◌, List, [], ◌∷◌, Option, none, some, leb, ◌≡◌, refl, ◌∙◌, arith, inl, inr,
  Bool-cases,
}
use combine_trade.Core.Types.{Timeframe, d1, h1, m5, m1}
use combine_trade.Candles.Gaps.{
  CandleGap, get_timeframe_duration_ms, gap_between, push_gap, gaps_after, joined, merge_into,
  merge_gaps, detect_gaps,
}

abbrev pub sum : List ℕ → ℕ
sum [] = 0
sum (n ∷ ns) = n + sum ns

abbrev pub total_expected : List CandleGap → ℕ
total_expected [] = 0
total_expected (gap ∷ gaps) = gap.expected_count + total_expected gaps

-- The opening times after the one at place `k`, where after each candle so many are missing.
unfoldable pub times_after : ℕ → ℕ → List ℕ → List ℕ
times_after duration k [] = []
times_after duration k (missing ∷ rest) =
    let next = suc (k + missing) in duration * next ∷ times_after duration next rest

expected_of : Option CandleGap → ℕ
expected_of none = 0
expected_of (some gap) = gap.expected_count

total-push_gap :
    (gap : Option CandleGap) (gaps : List CandleGap)
    → total_expected (push_gap gap gaps) ≡ expected_of gap + total_expected gaps
unfolding expected_of
total-push_gap none gaps = omega arith
total-push_gap (some gap) gaps = refl

expected-gap_between :
    (timeframe : Timeframe) (k missing : ℕ)
    → let duration = get_timeframe_duration_ms timeframe in
      expected_of (gap_between duration (duration * k) (duration * suc (k + missing))) ≡ missing
unfolding expected_of gap_between get_timeframe_duration_ms
expected-gap_between d1 k missing = ground arith
expected-gap_between h1 k missing = ground arith
expected-gap_between m5 k missing = ground arith
expected-gap_between m1 k missing = ground arith

total-gaps_after :
    (timeframe : Timeframe) (k : ℕ) (missing : List ℕ)
    → let duration = get_timeframe_duration_ms timeframe in
      total_expected (gaps_after duration (duration * k) (times_after duration k missing))
      ≡ sum missing
unfolding gaps_after times_after
total-gaps_after timeframe k [] = refl
total-gaps_after timeframe k (n ∷ rest) =
    let duration = get_timeframe_duration_ms timeframe in
    let next = suc (k + n) in
    omega (
      arith,
      total-push_gap (gap_between duration (duration * k) (duration * next))
          (gaps_after duration (duration * next) (times_after duration next rest)),
      expected-gap_between timeframe k n,
      total-gaps_after timeframe next rest,
    )

total-merge_into :
    (duration : ℕ) (prev : CandleGap) (gaps : List CandleGap)
    → total_expected (merge_into duration prev gaps) ≡ prev.expected_count + total_expected gaps
unfolding merge_into
total-merge_into duration prev [] = omega arith
total-merge_into duration prev (curr ∷ rest) =
    elim (Bool-cases (leb (2 * curr.start) (2 * prev.end + 3 * duration))) [
      | inl h ↦ rw h (omega (arith, total-merge_into duration (joined prev curr) rest))
      | inr h ↦ rw h (omega (arith, total-merge_into duration curr rest))
    ]

total-merge_gaps :
    (duration : ℕ) (gaps : List CandleGap)
    → total_expected (merge_gaps duration gaps) ≡ total_expected gaps
unfolding merge_gaps
total-merge_gaps duration [] = refl
total-merge_gaps duration (gap ∷ gaps) = total-merge_into duration gap gaps

-- Where every candle opens at a multiple of the duration, the gaps expect together exactly as many
-- candles as are missing between the first and the last.
pub total_expected-detect_gaps :
    (timeframe : Timeframe) (from to k : ℕ) (missing : List ℕ)
    → let duration = get_timeframe_duration_ms timeframe in
      total_expected (detect_gaps timeframe from to (duration * k ∷ times_after duration k missing))
      ≡ sum missing
unfolding detect_gaps
total_expected-detect_gaps timeframe from to k missing =
    let duration = get_timeframe_duration_ms timeframe in
    total-merge_gaps duration (gaps_after duration (duration * k) (times_after duration k missing))
    ∙ total-gaps_after timeframe k missing
