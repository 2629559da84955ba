-- ===== src/Tests/Filters.antt =====
-- Blocks, seeds and a daily bias.
use combine_trade.Prelude.{
  ℕ, zero, suc, ◌+◌, ◌-◌, ◌*◌, true, false, not, ◌&&◌, List, [], ◌∷◌, none, some, Text, codes, All,
  any, Result, ok, leb, ◌≡◌, ◌↔◌, refl, arith,
}
use combine_trade.Prelude.Int.{ℤ, pos}
use combine_trade.Core.Types.{long_only, short_only}
use combine_trade.Core.Decimal.{◌≼◌, gt, lt}
use combine_trade.Core.Fixed.{fixed, fixed-IsOrdered}
use combine_trade.Filters.TradeBlock.{
  TradeBlockRow, economic, funding, funding_rule, is_trade_blocked,
}
use combine_trade.Filters.TradeBlock.Blocked.{Blocks, is_trade_blocked_iff}
use combine_trade.Filters.TradeBlock.Seeds.{
  has_reason, seed_patterns, seed_trade_blocks, seed_trade_blocks_idempotent,
}
use combine_trade.Filters.DailyDirection.{HasSigns, determine_daily_bias, determine_daily_bias_iff}
use combine_trade.Knn.Types.{Number}

abbrev rows : List TradeBlockRow
rows =
    record {
      block_type = economic;
      start_time = 1_000;
      end_time = 2_000;
      reason = none;
      is_recurring = false;
      recurrence_rule = none;
    }
    ∷ record {
      block_type = funding;
      start_time = 0;
      end_time = 0;
      reason = some (codes "funding");
      is_recurring = true;
      recurrence_rule = some (funding_rule (record { utc_hours = 8 ∷ []; duration_min = 30 }));
    }
    ∷ []

abbrev answer : Result Text (List TradeBlockRow)
answer = ok rows

is_trade_blocked_iff_example :
    ((is_trade_blocked (λ t. 7) (λ t. 50) answer answer 50).blocked ≡ false) ↔ (
      ((first : List TradeBlockRow) × (answer ≡ ok first)
        × All
            (λ r. r.is_recurring ≡ true → ¬ Blocks (7 * 60 + 50) r.block_type r.recurrence_rule)
            first)
      × ((second : List TradeBlockRow) × (answer ≡ ok second)
          × All
              (λ r. r.is_recurring ≡ false → (leb r.start_time 50 && leb 50 r.end_time) ≡ false)
              second))
is_trade_blocked_iff_example =
    is_trade_blocked_iff (λ t. 7) (λ t. 50) answer answer 50 (omega arith) (omega arith)

seed_trade_blocks_idempotent_example :
    All (λ p. any (has_reason p.reason) (seed_trade_blocks rows) ≡ true) seed_patterns
    × (seed_trade_blocks (seed_trade_blocks rows) ≡ seed_trade_blocks rows)
seed_trade_blocks_idempotent_example = seed_trade_blocks_idempotent rows

fixed-HasSigns : HasSigns ℤ
unfolding fixed
fixed-HasSigns = record {
  positive_iff = λ x y. ground arith;
  negative-eq = λ x y. refl;
  zero_iff = λ x y. ground arith;
}

determine_daily_bias_iff_example :
    ((determine_daily_bias (pos 12) (pos 10) (pos 5) (pos 5) ≡ long_only)
      ↔ ((pos 5 ≼ pos 5) × (gt (pos 12) (pos 10) ≡ true)))
    × ((determine_daily_bias (pos 12) (pos 10) (pos 5) (pos 5) ≡ short_only)
        ↔ ((pos 5 ≼ pos 5) × (lt (pos 12) (pos 10) ≡ true)))
determine_daily_bias_iff_example =
    determine_daily_bias_iff fixed-IsOrdered fixed-HasSigns (pos 12) (pos 10) (pos 5) (pos 5)

-- Tenths.
instance tenths : Number ℕ
tenths = record {
  number = λ m k. elim k [ zero ↦ 10 * m | suc _ ↦ m ];
  plus = λ x y. x + y;
  minus = λ x y. x - y;
  times = λ x y. x * y;
  divided_by = λ x y. x;
  greater = λ x y. not (leb x y);
  greater_or_equal = λ x y. leb y x;
}
