-- ===== src/Core/Decimal.antt =====
-- core/decimal.ts over decimal.js. The package is a parameter: `Decimal D` names the methods that
-- the program calls, at finite values, and `IsOrdered` and `IsMonotone` the documented behaviour
-- that theorems use. A numeric column or a string that the code turns into a decimal by `d` is that
-- decimal; `literal m k` is the constant m / 10 ^ k.
use combine_trade.Prelude.{
  ℕ, ◌≡◌, ◌⊎◌, ◌↔◌, Bool, true, false, not, ◌&&◌, if◌then◌else◌, Result, ok, err,
}
use combine_trade.Core.Types.{Error, division_by_zero}

pub record Decimal (D : Type 0) : Type 0 where
  pub literal : ℕ → ℕ → D
  pub plus : D → D → D
  pub minus : D → D → D
  pub times : D → D → D
  pub divided_by : D → D → D
  pub absolute : D → D
  pub negated : D → D
  pub floor : D → D
  -- toDecimalPlaces(n, ROUND_DOWN)
  pub round_down : ℕ → D → D
  -- Math.ceil(x.toNumber()), for values that are not negative
  pub ceil_number : D → ℕ
  pub maximum : D → D → D
  pub minimum : D → D → D
  pub less_or_equal : D → D → Bool
  pub less : D → D → Bool
  pub greater_or_equal : D → D → Bool
  pub greater : D → D → Bool
  pub equals : D → D → Bool
  pub zero_valued : D → Bool
  -- isPositive and isNegative read the sign bit: +0 is positive.
  pub sign_positive : D → Bool
  pub sign_negative : D → Bool

module _ {D : Type 0} ⦃dec : Decimal D⦄ where
  abbrev pub lit : ℕ → ℕ → D
  lit = dec.literal

  abbrev pub nought : D
  nought = dec.literal 0 0

  abbrev pub add : D → D → D
  add = dec.plus

  abbrev pub sub : D → D → D
  sub = dec.minus

  abbrev pub mul : D → D → D
  mul = dec.times

  -- Throws on a zero divisor.
  abbrev pub div : D → D → Result Error D
  div x y = if dec.zero_valued y then err division_by_zero else ok (dec.divided_by x y)

  abbrev pub abs : D → D
  abs = dec.absolute

  abbrev pub neg : D → D
  neg = dec.negated

  abbrev pub min : D → D → D
  min = dec.minimum

  abbrev pub max : D → D → D
  max = dec.maximum

  abbrev pub eq : D → D → Bool
  eq = dec.equals

  abbrev pub gt : D → D → Bool
  gt = dec.greater

  abbrev pub gte : D → D → Bool
  gte = dec.greater_or_equal

  abbrev pub lt : D → D → Bool
  lt = dec.less

  abbrev pub lte : D → D → Bool
  lte = dec.less_or_equal

  abbrev pub is_zero : D → Bool
  is_zero = dec.zero_valued

  abbrev pub is_positive : D → Bool
  is_positive x = dec.sign_positive x && not (dec.zero_valued x)

  abbrev pub is_negative : D → Bool
  is_negative = dec.sign_negative

  -- (to - from) / from; throws where `from` is zero.
  abbrev pub pct_change : D → D → Result Error D
  pct_change from to =
      if dec.zero_valued from
      then err division_by_zero
      else ok (dec.divided_by (dec.minus to from) from)

  abbrev pub pct_of : D → D → D
  pct_of = dec.times

infix 50 ◌≼◌
abbrev pub ◌≼◌ : {D : Type 0} ⦃dec : Decimal D⦄ → D → D → Type 0
◌≼◌ ⦃dec⦄ x y = dec.less_or_equal x y ≡ true

-- Comparison of finite values is a total order, and the other tests are read off it.
pub record IsOrdered (D : Type 0) ⦃dec : Decimal D⦄ : Type 0 where
  pub le_total : (x y : D) → (x ≼ y) ⊎ (y ≼ x)
  pub le_trans : (x y z : D) → x ≼ y → y ≼ z → x ≼ z
  pub gt-eq : (x y : D) → gt x y ≡ not (lte x y)
  pub lt-eq : (x y : D) → lt x y ≡ not (lte y x)
  pub gte-eq : (x y : D) → gte x y ≡ lte y x
  pub equals-eq : (x y : D) → eq x y ≡ (lte x y && lte y x)
  pub is_zero-eq : (x : D) → is_zero x ≡ (lte x nought && lte nought x)
  pub sign_positive_of_nonzero : (x : D) → is_zero x ≡ false → dec.sign_positive x ≡ lte nought x
  pub le-max_left : (x y : D) → x ≼ max x y
  pub le-max_right : (x y : D) → y ≼ max x y
  pub max_cases : (x y : D) → (max x y ≡ x) ⊎ (max x y ≡ y)
  pub min-le_left : (x y : D) → min x y ≼ x
  pub min-le_right : (x y : D) → min x y ≼ y
  pub min_cases : (x y : D) → (min x y ≡ x) ⊎ (min x y ≡ y)

-- Rounding to twenty digits is monotone and keeps signs, and so do the operations.
pub record IsMonotone (D : Type 0) ⦃dec : Decimal D⦄ : Type 0 where
  pub literal_nonneg : (m k : ℕ) → nought {D = D} ≼ lit m k
  pub add_mono : (x y z : D) → x ≼ y → add z x ≼ add z y
  -- For values within the twenty digits.
  pub le-add : (x y : D) → nought ≼ y → x ≼ add x y
  pub sub_anti : (x y z : D) → x ≼ y → sub z y ≼ sub z x
  pub sub_nonneg : (x y : D) → (nought ≼ sub x y) ↔ (y ≼ x)
  pub mul_mono : (x y z : D) → nought ≼ z → x ≼ y → mul x z ≼ mul y z
  pub mul_nonneg : (x y : D) → nought ≼ x → nought ≼ y → nought ≼ mul x y

-- Half of a value that is not negative lies between zero and the value.
pub record IsHalving (D : Type 0) ⦃dec : Decimal D⦄ : Type 0 where
  pub half_le : (x : D) → nought ≼ x → mul x (lit 5 1) ≼ x
  pub half_nonneg : (x : D) → nought ≼ x → nought ≼ mul x (lit 5 1)
  pub halved_le : (x : D) → nought ≼ x → dec.divided_by x (lit 2 0) ≼ x
  pub halved_nonneg : (x : D) → nought ≼ x → nought ≼ dec.divided_by x (lit 2 0)
