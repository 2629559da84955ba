-- ===== src/Core/Fixed.antt =====
-- Decimals with four places, rounded towards zero, as integers: a type that has the behaviour which
-- the theorems assume of decimal.js, for tests.
use combine_trade.Prelude.{
  ℕ, suc, ◌+◌, ◌-◌, ◌*◌, ◌/◌, ◌^◌, ◌≤◌, ◌≡◌, refl, Bool, true, false, not, ◌&&◌, arith, leb, ◌==◌,
  if◌then◌else◌,
}
use combine_trade.Prelude.Int.{ℤ, pos, negsuc, pos_part, neg_part, sub_ℕ, ◌+ℤ◌, ◌-ℤ◌}
use combine_trade.Core.Decimal.{Decimal, IsOrdered, IsMonotone, IsHalving}

abbrev pub scale : ℕ
scale = 10_000

abbrev pub le_ℤ : ℤ → ℤ → Bool
le_ℤ x y = leb (pos_part x + neg_part y) (pos_part y + neg_part x)

abbrev pub negate : ℤ → ℤ
negate x = sub_ℕ (neg_part x) (pos_part x)

-- The sign of a product or quotient and its magnitude.
abbrev signed : Bool → ℕ → ℤ
signed true n = sub_ℕ n 0
signed false n = sub_ℕ 0 n

abbrev magnitude : ℤ → ℕ
magnitude x = pos_part x + neg_part x

abbrev nonneg : ℤ → Bool
nonneg (pos n) = true
nonneg (negsuc n) = false

abbrev same_sign : ℤ → ℤ → Bool
same_sign x y = if nonneg x then nonneg y else not (nonneg y)

abbrev times_fixed : ℤ → ℤ → ℤ
times_fixed x y = signed (same_sign x y) (magnitude x * magnitude y / scale)

abbrev divided_fixed : ℤ → ℤ → ℤ
divided_fixed x y = signed (same_sign x y) (magnitude x * scale / magnitude y)

instance unfoldable pub fixed : Decimal ℤ
unfolding ◌+ℤ◌ ◌-ℤ◌
fixed = record {
  literal = λ m k. pos (m * scale / 10 ^ k);
  plus = ◌+ℤ◌;
  minus = ◌-ℤ◌;
  times = times_fixed;
  divided_by = divided_fixed;
  absolute = λ x. pos (magnitude x);
  negated = negate;
  floor = λ x.
      if nonneg x
      then pos (pos_part x / scale * scale)
      else negate (pos ((neg_part x + scale - 1) / scale * scale));
  round_down = λ k x. signed (nonneg x) (magnitude x / (scale / 10 ^ k) * (scale / 10 ^ k));
  ceil_number = λ x. (pos_part x + scale - 1) / scale;
  maximum = λ x y. if le_ℤ x y then y else x;
  minimum = λ x y. if le_ℤ x y then x else y;
  less_or_equal = le_ℤ;
  less = λ x y. not (le_ℤ y x);
  greater_or_equal = λ x y. le_ℤ y x;
  greater = λ x y. not (le_ℤ x y);
  equals = λ x y. le_ℤ x y && le_ℤ y x;
  zero_valued = λ x. magnitude x == 0;
  sign_positive = nonneg;
  sign_negative = λ x. not (nonneg x);
}

pub fixed-IsOrdered : IsOrdered ℤ
unfolding fixed
fixed-IsOrdered = record {
  le_total = λ x y. ground arith;
  le_trans = λ x y z h k. ground arith;
  gt-eq = λ x y. refl;
  lt-eq = λ x y. refl;
  gte-eq = λ x y. refl;
  equals-eq = λ x y. refl;
  is_zero-eq = λ x. ground arith;
  sign_positive_of_nonzero = λ x h. ground arith;
  le-max_left = λ x y. ground arith;
  le-max_right = λ x y. ground arith;
  max_cases = λ x y. ground arith;
  min-le_left = λ x y. ground arith;
  min-le_right = λ x y. ground arith;
  min_cases = λ x y. ground arith;
}

product-le : (x y z : ℕ) → x ≤ y → x * z / scale ≤ y * z / scale
product-le x y z h = grind arith

times_fixed_mono :
    (x y z : ℤ)
    → le_ℤ (pos 0) z ≡ true
    → le_ℤ x y ≡ true
    → le_ℤ (times_fixed x z) (times_fixed y z) ≡ true
times_fixed_mono x y (negsuc z) h k = ground arith
times_fixed_mono (pos x) (pos y) (pos z) h k = ground (arith, product-le x y z)
times_fixed_mono (negsuc x) (pos y) (pos z) h k = ground arith
times_fixed_mono (pos x) (negsuc y) (pos z) h k = ground arith
times_fixed_mono (negsuc x) (negsuc y) (pos z) h k = ground (arith, product-le (suc y) (suc x) z)

pub fixed-IsMonotone : IsMonotone ℤ
unfolding fixed
fixed-IsMonotone = record {
  literal_nonneg = λ m k. ground arith;
  add_mono = λ x y z h. ground arith;
  le-add = λ x y h. ground arith;
  sub_anti = λ x y z h. ground arith;
  sub_nonneg = λ x y. ground arith;
  mul_mono = λ x y z h k. times_fixed_mono x y z h k;
  mul_nonneg = λ x y h k. ground arith;
}

pub fixed-IsHalving : IsHalving ℤ
unfolding fixed
fixed-IsHalving = record {
  half_le = λ x h. ground arith;
  half_nonneg = λ x h. ground arith;
  halved_le = λ x h. ground arith;
  halved_nonneg = λ x h. ground arith;
}
