-- ===== src/Tests/Candles.antt =====
-- Candles of an hour with gaps between them.
use combine_trade.Prelude.{ℕ, ◌*◌, List, [], ◌∷◌, ◌≡◌}
use combine_trade.Core.Types.{h1}
use combine_trade.Candles.Gaps.{get_timeframe_duration_ms, detect_gaps}
use combine_trade.Candles.Missing.{sum, total_expected, times_after, total_expected-detect_gaps}

-- Two candles are missing after the first, none after the second and one after the third.
abbrev missing : List ℕ
missing = 2 ∷ 0 ∷ 1 ∷ []

total_expected-detect_gaps_example :
    total_expected (
      detect_gaps h1 0 36_000_000
        (get_timeframe_duration_ms h1 * 3 ∷ times_after (get_timeframe_duration_ms h1) 3 missing))
    ≡ sum missing
total_expected-detect_gaps_example = total_expected-detect_gaps h1 0 36_000_000 3 missing
