-- ===== src/Core/Order.antt =====
-- Facts about the order of decimals.
use combine_trade.Prelude.{◌≡◌, true, false, inl, inr, arith}
use combine_trade.Core.Decimal.{Decimal, IsOrdered, ◌≼◌, lte, gt, lt}

module _ {D : Type 0} ⦃dec : Decimal D⦄ (order : IsOrdered D) where
  open order use {le_total, gt-eq, lt-eq}

  pub le_refl : (x : D) → x ≼ x
  le_refl x = elim (le_total x x) [ inl h ↦ h | inr h ↦ h ]

  pub le_of_not_le : (x y : D) → lte x y ≡ false → y ≼ x
  le_of_not_le x y h = elim (le_total x y) [ inl k ↦ cc | inr k ↦ k ]

  pub gt→le : (x y : D) → gt x y ≡ true → y ≼ x
  gt→le x y h = ground (arith, gt-eq x y, le_of_not_le x y)

  pub not-gt→le : (x y : D) → gt x y ≡ false → x ≼ y
  not-gt→le x y h = ground (arith, gt-eq x y)

  pub lt→le : (x y : D) → lt x y ≡ true → x ≼ y
  lt→le x y h = ground (arith, lt-eq x y, le_of_not_le y x)

  pub not-lt→le : (x y : D) → lt x y ≡ false → y ≼ x
  not-lt→le x y h = ground (arith, lt-eq x y)
