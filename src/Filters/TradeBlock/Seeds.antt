-- ===== src/Filters/TradeBlock/Seeds.antt =====
-- seedTradeBlocks and addOneTimeBlock of filters/trade-block.ts.
use combine_trade.Prelude.{
  ℕ, Bool, true, false, ◌&&◌, List, [], ◌∷◌, Option, none, some, Text, codes, eq_text, eq_text_refl,
  any, All, if◌then◌else◌, ◌≡◌, refl, subst, arith, inl, inr, Bool-cases,
}
use combine_trade.Filters.TradeBlock.{
  BlockType, market_open, funding, TradeBlockRow, RecurrenceRule, market_rule, funding_rule,
}

pub record SeedPattern : Type 0 where
  pub block_type : BlockType
  pub reason : Text
  pub recurrence_rule : RecurrenceRule

abbrev session : Text → ℕ → SeedPattern
session reason start = record {
  block_type = market_open;
  reason = reason;
  recurrence_rule = market_rule (record { start_minutes = start; duration_min = 120 });
}

abbrev pub seed_patterns : List SeedPattern
seed_patterns =
    session (codes "아시아장 00:00-02:00 UTC") 0
    ∷ session (codes "유럽장 07:00-09:00 UTC") 420
    ∷ session (codes "미국장(S) 13:30-15:30 UTC") 810
    ∷ session (codes "미국장(W) 14:30-16:30 UTC") 870
    ∷ record {
      block_type = funding;
      reason = codes "펀딩 0/8/16시 ±15분 UTC";
      recurrence_rule = funding_rule (record { utc_hours = 0 ∷ 8 ∷ 16 ∷ []; duration_min = 30 });
    }
    ∷ []

-- A recurring row with the reason. (The query also asks that the reason is one of the seeds'.)
abbrev pub has_reason : Text → TradeBlockRow → Bool
has_reason reason row =
    row.is_recurring && elim row.reason [ none ↦ false | some r ↦ eq_text r reason ]

unfoldable pub seed_row : SeedPattern → TradeBlockRow
seed_row p = record {
  block_type = p.block_type;
  start_time = 0;
  end_time = 0;
  reason = some p.reason;
  is_recurring = true;
  recurrence_rule = some p.recurrence_rule;
}

-- The existing reasons are read once, before the loop.
unfoldable pub insert_missing :
    List TradeBlockRow → List SeedPattern → List TradeBlockRow → List TradeBlockRow
unfolding seed_row
insert_missing existing [] rows = rows
insert_missing existing (p ∷ ps) rows =
    if any (has_reason p.reason) existing
    then insert_missing existing ps rows
    else insert_missing existing ps (seed_row p ∷ rows)

unfoldable pub seed_trade_blocks : List TradeBlockRow → List TradeBlockRow
unfolding insert_missing
seed_trade_blocks rows = insert_missing rows seed_patterns rows

unfoldable pub add_one_time_block :
    List TradeBlockRow → BlockType → ℕ → ℕ → Option Text → List TradeBlockRow
add_one_time_block rows block_type start_time end_time reason =
    record {
      block_type = block_type;
      start_time = start_time;
      end_time = end_time;
      reason = reason;
      is_recurring = false;
      recurrence_rule = none;
    }
    ∷ rows

Seeded : List TradeBlockRow → SeedPattern → Type 0
Seeded rows p = any (has_reason p.reason) rows ≡ true

insert_missing-keeps :
    (existing : List TradeBlockRow) (ps : List SeedPattern) (rows : List TradeBlockRow)
    (reason : Text)
    → any (has_reason reason) rows ≡ true
    → any (has_reason reason) (insert_missing existing ps rows) ≡ true
unfolding insert_missing
insert_missing-keeps existing [] rows reason h = h
insert_missing-keeps existing (p ∷ ps) rows reason h =
    elim (Bool-cases (any (has_reason p.reason) existing)) [
      | inl e ↦ rw e (insert_missing-keeps existing ps rows reason h)
      | inr e ↦
          rw e (insert_missing-keeps existing ps (seed_row p ∷ rows) reason (ground (arith, h)))
    ]

insert_missing-Seeded :
    (existing : List TradeBlockRow) (ps : List SeedPattern) (rows : List TradeBlockRow)
    → ((reason : Text)
        → any (has_reason reason) existing ≡ true
        → any (has_reason reason) rows ≡ true)
    → All (Seeded (insert_missing existing ps rows)) ps
unfolding insert_missing Seeded seed_row
insert_missing-Seeded existing [] rows sub = tt
insert_missing-Seeded existing (p ∷ ps) rows sub =
    elim (Bool-cases (any (has_reason p.reason) existing)) [
      | inl e ↦
          let out : insert_missing existing ps rows ≡ insert_missing existing (p ∷ ps) rows =
            rw e refl in
          subst (λ rows'. All (Seeded rows') (p ∷ ps)) out
            (
              insert_missing-keeps existing ps rows p.reason (sub p.reason e),
              insert_missing-Seeded existing ps rows sub,
            )
      | inr e ↦
          let out : insert_missing existing ps (seed_row p ∷ rows)
              ≡ insert_missing existing (p ∷ ps) rows =
            rw e refl in
          subst (λ rows'. All (Seeded rows') (p ∷ ps)) out
            (
              insert_missing-keeps existing ps (seed_row p ∷ rows) p.reason
                  (rw (eq_text_refl p.reason) refl),
              insert_missing-Seeded existing ps (seed_row p ∷ rows)
                  (λ reason h. ground (arith, sub reason h)),
            )
    ]

insert_missing-none :
    (existing : List TradeBlockRow) (ps : List SeedPattern) (rows : List TradeBlockRow)
    → All (Seeded existing) ps
    → insert_missing existing ps rows ≡ rows
unfolding insert_missing Seeded
insert_missing-none existing [] rows h = refl
insert_missing-none existing (p ∷ ps) rows (h, hs) = rw h (insert_missing-none existing ps rows hs)

-- Seeding leaves every seed's reason on a recurring row, and seeding again changes nothing.
pub seed_trade_blocks_idempotent :
    (rows : List TradeBlockRow)
    → All (λ p. any (has_reason p.reason) (seed_trade_blocks rows) ≡ true) seed_patterns
      × (seed_trade_blocks (seed_trade_blocks rows) ≡ seed_trade_blocks rows)
unfolding seed_trade_blocks Seeded
seed_trade_blocks_idempotent rows =
    let seeded = insert_missing-Seeded rows seed_patterns rows (λ reason h. h) in
    (
      seeded,
      insert_missing-none (insert_missing rows seed_patterns rows) seed_patterns
          (insert_missing rows seed_patterns rows) seeded,
    )
