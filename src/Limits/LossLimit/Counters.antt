-- ===== src/Limits/LossLimit/Counters.antt =====
-- Recorded losses: what they count, and what they leave alone.
use combine_trade.Prelude.{
  ℕ, ◌+◌, ◌≤◌, false, not, List, [], ◌∷◌, Text, length, filter, All, ◌≡◌, refl, arith, Bool-cases,
  inl, inr,
}
use combine_trade.Core.Types.{Exchange, VectorTimeframe, m5, m1}
use combine_trade.Core.Decimal.{Decimal, IsOrdered, IsMonotone, ◌≼◌, nought}
use combine_trade.Limits.LossLimit.{
  LossRow, SymbolLossState, LossLimitConfig, LossViolation, daily, session, hourly_5m, hourly_1m,
  coalesce, count_loss, at_key, record_loss, check_loss_limit,
}
use combine_trade.Limits.LossLimit.Check.{Reached, allowed_iff}

module _ {D : Type 0} ⦃dec : Decimal D⦄ where
  -- The counters of a row, as the pipeline hands them to the check.
  abbrev pub state_of : LossRow D → SymbolLossState D
  state_of row = record {
    losses_today = coalesce row.losses_today nought;
    losses_session = coalesce row.losses_session 0;
    losses_this_hour_5m = coalesce row.losses_this_1h_5m 0;
    losses_this_hour_1m = coalesce row.losses_this_1h_1m 0;
  }

  -- Losses of one symbol, one after the other, each with its time.
  pub count_losses : List (D × VectorTimeframe × ℕ) → LossRow D → LossRow D
  count_losses [] row = row
  count_losses ((amount, timeframe, at) ∷ ls) row =
      count_losses ls (count_loss amount timeframe at row)

  pub count_losses-session :
      (ls : List (D × VectorTimeframe × ℕ)) (row : LossRow D)
      → (state_of (count_losses ls row)).losses_session ≡ (state_of row).losses_session + length ls
  unfolding count_losses
  count_losses-session [] row = omega arith
  count_losses-session ((amount, m5, at) ∷ ls) row =
      omega (arith, count_losses-session ls (count_loss amount m5 at row))
  count_losses-session ((amount, m1, at) ∷ ls) row =
      omega (arith, count_losses-session ls (count_loss amount m1 at row))

  module _ (order : IsOrdered D) where
    -- As many losses as the session maximum, of any amount and on any timeframe, block the symbol.
    pub count_losses-blocked :
        (ls : List (D × VectorTimeframe × ℕ)) (row : LossRow D) (balance : D)
        (c : LossLimitConfig D)
        → c.max_session_losses ≤ length ls
        → (check_loss_limit (state_of (count_losses ls row)) balance c).allowed ≡ false
    count_losses-blocked ls row balance c h =
        elim (Bool-cases (check_loss_limit (state_of (count_losses ls row)) balance c).allowed) [
          | inr e ↦ e
          | inl e ↦
              let room = ((allowed_iff order _ balance c).0 e).1 in
              absurd (omega (arith, count_losses-session ls row))
        ]

    module _ (mono : IsMonotone D) where
      open order use {le_trans}
      open mono use {le-add}

      count_loss-Reached :
          (v : LossViolation) (amount : D) (timeframe : VectorTimeframe) (at : ℕ) (row : LossRow D)
          (balance : D) (c : LossLimitConfig D)
          → nought ≼ amount
          → Reached v (state_of row) balance c
          → Reached v (state_of (count_loss amount timeframe at row)) balance c
      count_loss-Reached daily amount m5 at row balance c h r =
          le_trans _ _ _ r (le-add (coalesce row.losses_today nought) amount h)
      count_loss-Reached daily amount m1 at row balance c h r =
          le_trans _ _ _ r (le-add (coalesce row.losses_today nought) amount h)
      count_loss-Reached session amount m5 at row balance c h r = omega arith
      count_loss-Reached session amount m1 at row balance c h r = omega arith
      count_loss-Reached hourly_5m amount m5 at row balance c h r = omega arith
      count_loss-Reached hourly_5m amount m1 at row balance c h r = r
      count_loss-Reached hourly_1m amount m5 at row balance c h r = r
      count_loss-Reached hourly_1m amount m1 at row balance c h r = omega arith

      -- Until a reset, a limit that has been reached stays reached, whatever losses are counted.
      pub count_losses-Reached :
          (v : LossViolation) (ls : List (D × VectorTimeframe × ℕ)) (row : LossRow D) (balance : D)
          (c : LossLimitConfig D)
          → All (λ (l : D × VectorTimeframe × ℕ). nought ≼ l.0) ls
          → Reached v (state_of row) balance c
          → Reached v (state_of (count_losses ls row)) balance c
      unfolding count_losses
      count_losses-Reached v [] row balance c h r = r
      count_losses-Reached v ((amount, timeframe, at) ∷ ls) row balance c (h, hs) r =
          count_losses-Reached v ls _ balance c hs
            (count_loss-Reached v amount timeframe at row balance c h r)

  -- Rows of other symbols and exchanges stay as they are.
  pub record_loss-others :
      (db : List (LossRow D)) (symbol : Text) (exchange : Exchange) (amount : D)
      (timeframe : VectorTimeframe) (at : ℕ)
      → filter
          (λ row. not (at_key symbol exchange row))
          (record_loss db symbol exchange amount timeframe at)
        ≡ filter (λ row. not (at_key symbol exchange row)) db
  unfolding record_loss
  record_loss-others [] symbol exchange amount timeframe at = refl
  record_loss-others (row ∷ db) symbol exchange amount m5 at =
      ground (arith, record_loss-others db symbol exchange amount m5 at)
  record_loss-others (row ∷ db) symbol exchange amount m1 at =
      ground (arith, record_loss-others db symbol exchange amount m1 at)
