-- ===== src/Exits/Checker/Sizes.antt =====
-- How much of the position an exit closes.
use combine_trade.Prelude.{ℕ, ◌≡◌, Option, arith}
use combine_trade.Core.Types.{initial, Timeframe}
use combine_trade.Core.Decimal.{Decimal, IsOrdered, IsMonotone, IsHalving, ◌≼◌, nought, sub}
use combine_trade.Core.Order.{le_refl}
use combine_trade.Exits.Checker.{CheckExitInput, check_exit}

-- A ticket before its first target is whole, and no ticket has a negative rest.
pub record IsSized {D : Type 0} ⦃dec : Decimal D⦄ (t : CheckExitInput D) : Type 0 where
  pub nonneg : nought ≼ t.remaining_size
  pub whole : t.state ≡ initial → t.size ≡ t.remaining_size

module _ {D : Type 0} ⦃dec : Decimal D⦄ (order : IsOrdered D) (mono : IsMonotone D)
    (halves : IsHalving D) where
  open mono use {sub_nonneg}
  open halves use {half_le, half_nonneg, halved_le, halved_nonneg}

  close_size-le :
      (t : CheckExitInput D) (price : D) (now : ℕ) (timeframe : Option Timeframe)
      → IsSized t
      → let closed_size = (check_exit t price now timeframe).close_size in
        (nought ≼ closed_size) × (closed_size ≼ t.remaining_size)
  unfolding check_exit
  close_size-le t price now timeframe v = ground (
    arith,
    le_refl order nought,
    le_refl order t.remaining_size,
    half_le t.remaining_size,
    half_nonneg t.remaining_size,
    halved_le t.remaining_size,
    halved_nonneg t.remaining_size,
    v.whole,
  )

  -- What an exit closes is not negative and at most what is left, so that the rest which the
  -- manager writes is not negative either.
  pub close_size_bounds :
      (t : CheckExitInput D) (price : D) (now : ℕ) (timeframe : Option Timeframe)
      → IsSized t
      → let closed_size = (check_exit t price now timeframe).close_size in
        (nought ≼ closed_size)
        × (closed_size ≼ t.remaining_size)
        × (nought ≼ sub t.remaining_size closed_size)
  close_size_bounds t price now timeframe v =
      let (low, high) = close_size-le t price now timeframe v in
      (low, high, (sub_nonneg _ _).1 high)
