-- ===== src/Filters/TradeBlock/Blocked.antt =====
-- When trading is blocked.
use combine_trade.Prelude.{
  ℕ, true, false, not, ◌&&◌, List, [], ◌∷◌, Text, All, Result, ok, err, leb, ◌≡◌, ◌↔◌, sym, subst,
  ok_injective, refl, inl, inr, arith, Bool-cases, Option-cases, ◌+◌, ◌*◌, ◌≤◌, ◌<◌, ◌⊎◌, Bool,
  Option, none, some, any,
}
use combine_trade.Filters.TradeBlock.{
  TradeBlockRow, row_matches, one_time_rows, answer_blocked, is_trade_blocked, recurring_rows,
  recurring_answer, answered, TradeBlockResult, one_time_answer, first_blocks, BlockType,
  market_open, funding, economic, manual, MarketOpenRule, RecurrenceRule, market_rule, funding_rule,
  is_in_market_open_window, is_in_funding_window_of, is_in_funding_window, matches_recurrence_rule,
}

abbrev IsInactive : ℕ → TradeBlockRow → Type 0
IsInactive now r = r.is_recurring ≡ false → (leb r.start_time now && leb now r.end_time) ≡ false

none_active :
    (now : ℕ) (rows : List TradeBlockRow)
    → ((first_blocks (one_time_rows rows now)).blocked ≡ false) ↔ All (IsInactive now) rows
none_active now [] = (λ h. tt, λ h. refl)
none_active now (r ∷ rows) =
    elim (Bool-cases (not r.is_recurring && (leb r.start_time now && leb now r.end_time))) [
      | inl e ↦ rw e (λ h. cc, λ (h, hs). ground arith)
      | inr e ↦ rw e (
        λ h. (λ k. ground arith, (none_active now rows).0 h),
        λ (h, hs). (none_active now rows).1 hs,
      )
    ]

one_time_iff :
    (now : ℕ) (second : Result Text (List TradeBlockRow))
    → ((one_time_answer now second).blocked ≡ false)
      ↔ ((rows : List TradeBlockRow) × (second ≡ ok rows) × All (IsInactive now) rows)
unfolding one_time_answer
one_time_iff now (err message) = (λ h. cc, λ (rows, e, h). cc)
one_time_iff now (ok rows) = (
  λ h. (rows, refl, (none_active now rows).0 h),
  λ (rows', e, h). (none_active now rows).1 (subst (All (IsInactive now)) (sym (ok_injective e)) h),
)

-- The minute lies in the window, on its own day or on the one after the window starts.
abbrev pub InMarket : MarketOpenRule → ℕ → Type 0
InMarket rule minutes =
    ((rule.start_minutes ≤ minutes) × (minutes < rule.start_minutes + rule.duration_min))
    ⊎ (minutes + 1_440 < rule.start_minutes + rule.duration_min)

-- The minute, or that of the day before or after, is at most half the duration before the hour and less
-- than that after it, in half minutes.
abbrev pub AtFunding : ℕ → ℕ → ℕ → Type 0
AtFunding duration minutes hour =
    ((120 * hour ≤ 2 * minutes + duration) × (2 * minutes < 120 * hour + duration))
    ⊎ ((2_880 + 120 * hour ≤ 2 * minutes + duration)
        ⊎ (2 * minutes + 2_880 < 120 * hour + duration))

abbrev pub InFunding : ℕ → ℕ → List ℕ → Type 0
InFunding duration minutes [] = ⊥
InFunding duration minutes (hour ∷ hours) =
    AtFunding duration minutes hour ⊎ InFunding duration minutes hours

-- A rule blocks the minute; a funding block with the rule of a market always does, by its exception.
abbrev pub RuleBlocks : BlockType → RecurrenceRule → ℕ → Type 0
RuleBlocks market_open (market_rule rule) minutes = InMarket rule minutes
RuleBlocks funding (funding_rule rule) minutes = InFunding rule.duration_min minutes rule.utc_hours
RuleBlocks funding (market_rule rule) minutes = Unit
RuleBlocks _ _ minutes = ⊥

abbrev pub Blocks : ℕ → BlockType → Option RecurrenceRule → Type 0
Blocks minutes type none = ⊥
Blocks minutes type (some rule) = RuleBlocks type rule minutes

market_window_iff :
    (rule : MarketOpenRule) (minutes : ℕ)
    → minutes < 1_440
    → (is_in_market_open_window rule minutes ≡ true) ↔ InMarket rule minutes
unfolding is_in_market_open_window
market_window_iff rule minutes h = ground arith

funding_window_iff :
    (duration hour minutes : ℕ)
    → minutes < 1_440
    → (is_in_funding_window_of duration hour minutes ≡ true) ↔ AtFunding duration minutes hour
unfolding is_in_funding_window_of
funding_window_iff duration hour minutes h = ground arith

funding_windows_iff :
    (duration minutes : ℕ) (hours : List ℕ)
    → minutes < 1_440
    → (any (λ hour. is_in_funding_window_of duration hour minutes) hours ≡ true)
      ↔ InFunding duration minutes hours
funding_windows_iff duration minutes [] h = ground arith
funding_windows_iff duration minutes (hour ∷ hours) h = ground (
  arith,
  funding_window_iff duration hour minutes h,
  funding_windows_iff duration minutes hours h,
)

passes_iff : (b : Bool) → (some b ≡ some false) ↔ ¬ (b ≡ true)
passes_iff b = ground arith

negated : {A B C : Type 0} → (A ↔ ¬ B) → (B ↔ C) → (A ↔ ¬ C)
negated (f, g) (k, l) = (λ a c. f a (l c), λ n. g (λ b. n (k b)))

rule-Blocks :
    (type : BlockType) (rule : RecurrenceRule) (minutes : ℕ)
    → minutes < 1_440
    → (matches_recurrence_rule type rule minutes ≡ some false) ↔ ¬ RuleBlocks type rule minutes
unfolding matches_recurrence_rule is_in_funding_window
rule-Blocks market_open (market_rule rule) minutes h =
    negated (passes_iff _) (market_window_iff rule minutes h)
rule-Blocks market_open (funding_rule rule) minutes h = (λ e k. k, λ k. refl)
rule-Blocks funding (funding_rule rule) minutes h =
    negated (passes_iff _) (funding_windows_iff rule.duration_min minutes rule.utc_hours h)
rule-Blocks funding (market_rule rule) minutes h = (λ e k. cc, λ k. absurd (k tt))
rule-Blocks economic rule minutes h = (λ e k. k, λ k. refl)
rule-Blocks manual rule minutes h = (λ e k. k, λ k. refl)

row-Blocks :
    (minutes : ℕ) (r : TradeBlockRow)
    → minutes < 1_440
    → (row_matches minutes r ≡ some false) ↔ ¬ Blocks minutes r.block_type r.recurrence_rule
unfolding row_matches
row-Blocks minutes r h = elim (Option-cases r.recurrence_rule) [
  | inl e ↦ rw e (λ q k. k, λ k. refl)
  | inr (rule, e) ↦ rw e (rule-Blocks r.block_type rule minutes h)
]

abbrev IsSilent : ℕ → TradeBlockRow → Type 0
IsSilent minutes r = r.is_recurring ≡ true → ¬ Blocks minutes r.block_type r.recurrence_rule

answered_iff :
    (row : TradeBlockRow) (outcome : Option Bool) (otherwise : TradeBlockResult)
    → ((answered row outcome otherwise).blocked ≡ false)
      ↔ ((outcome ≡ some false) × (otherwise.blocked ≡ false))
answered_iff row none otherwise = (λ h. cc, λ (e, h). cc)
answered_iff row (some true) otherwise = (λ h. cc, λ (e, h). cc)
answered_iff row (some false) otherwise = (λ h. (refl, h), λ (e, h). h)

recurring_iff :
    (minutes : ℕ) (rows : List TradeBlockRow) (otherwise : TradeBlockResult)
    → minutes < 1_440
    → ((recurring_answer minutes (recurring_rows rows) otherwise).blocked ≡ false)
      ↔ (All (IsSilent minutes) rows × (otherwise.blocked ≡ false))
unfolding recurring_answer
recurring_iff minutes [] otherwise h = (λ k. (tt, k), λ (a, k). k)
recurring_iff minutes (r ∷ rows) otherwise h =
    let (to, from) = recurring_iff minutes rows otherwise h in
    let (out, back) = row-Blocks minutes r h in
    elim (Bool-cases r.is_recurring) [
      | inl e ↦
          let (split, join) =
            answered_iff r (row_matches minutes r)
              (recurring_answer minutes (recurring_rows rows) otherwise) in
          rw e (
            λ k. let (m, rest) = split k in let (a, b) = to rest in ((λ _. out m, a), b),
            λ ((s, a), b). join (back (s refl), from (a, b)),
          )
      | inr e ↦ rw e (λ k. let (a, b) = to k in ((λ t. cc, a), b), λ ((s, a), b). from (a, b))
    ]

-- Where hours and minutes are those of a clock, trading is not blocked exactly when both queries are
-- answered, no recurring rule blocks the minute of the day, and no one-time block holds at the time: a
-- failed query blocks it, and so does a funding block with a rule that has no hours.
pub is_trade_blocked_iff :
    (utc_hours utc_minutes : ℕ → ℕ) (first second : Result Text (List TradeBlockRow)) (now : ℕ)
    → utc_hours now < 24
    → utc_minutes now < 60
    → ((is_trade_blocked utc_hours utc_minutes first second now).blocked ≡ false) ↔ (
        ((rows : List TradeBlockRow) × (first ≡ ok rows)
          × All
              (λ r.
                r.is_recurring ≡ true
                → ¬ Blocks (utc_hours now * 60 + utc_minutes now) r.block_type r.recurrence_rule)
              rows)
        × ((rows : List TradeBlockRow) × (second ≡ ok rows)
            × All
                (λ r. r.is_recurring ≡ false → (leb r.start_time now && leb now r.end_time) ≡ false)
                rows))
unfolding is_trade_blocked answer_blocked
is_trade_blocked_iff utc_hours utc_minutes (err message) second now hour minute =
    (λ h. cc, λ ((rows, e, h), k). cc)
is_trade_blocked_iff utc_hours utc_minutes (ok rows) second now hour minute =
    let minutes = utc_hours now * 60 + utc_minutes now in
    let (to, from) = recurring_iff minutes rows (one_time_answer now second) (omega arith) in
    let (to', from') = one_time_iff now second in
    (
      λ h. let (a, b) = to h in ((rows, refl, a), to' b),
      λ ((rows', e, a), b). from (subst (All (IsSilent minutes)) (sym (ok_injective e)) a, from' b),
    )
