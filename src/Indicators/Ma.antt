-- ===== src/Indicators/Ma.antt =====
-- indicators/ma.ts. The averages of the package `@ixjb94/indicators` are functions `sma` and `ema` from
-- the prices and a period to a series; `is_nan` and `to_decimal` stand for Number.isNaN and d(v.toString()).
use combine_trade.Prelude.{
  ℕ, ◌<◌, Bool, not, List, [], ◌∷◌, Option, none, some, length, filter, map, ltb, lt→ltb,
  if◌then◌else◌, ◌≡◌, refl,
}

-- result[result.length - 1]
abbrev pub last {ℓ} : {A : Type ℓ} → List A → Option A
last [] = none
last (x ∷ []) = some x
last (x ∷ y ∷ xs) = last (y ∷ xs)

module _ {D N : Type 0} (is_nan : N → Bool) (to_decimal : N → D) where
  abbrev pub usable : Option N → Option D
  usable none = none
  usable (some v) = if is_nan v then none else some (to_decimal v)

  -- calcSMA for the series `sma`, calcEMA for `ema`.
  unfoldable pub calc_average : (List N → ℕ → List N) → List N → ℕ → Option D
  calc_average average source period =
      if ltb (length source) period then none else usable (last (average source period))

  -- calcSMASeries and calcEMASeries.
  unfoldable pub calc_average_series : (List N → ℕ → List N) → List N → ℕ → List D
  calc_average_series average source period =
      if ltb (length source) period
      then []
      else map to_decimal (filter (λ v. not (is_nan v)) (average source period))

  -- There is no average of fewer prices than the period.
  pub calc_average_short :
      (average : List N → ℕ → List N) (source : List N) (period : ℕ)
      → length source < period
      → calc_average average source period ≡ none
  unfolding calc_average
  calc_average_short average source period short = rw (lt→ltb (length source) period short) refl
