-- ===== src/Daemon/Pipeline/Bias.antt =====
-- The 1D path, with the averages of indicators/ma.ts behind calcAllIndicators.
use combine_trade.Prelude.{
  ℕ, ◌≤◌, ◌<◌, Bool, List, [], ◌∷◌, none, Text, length, map, ok, leb, ◌≡◌, ◌∙◌, refl, arith, inl,
  inr, Bool-cases, some, Result, ap,
}
use combine_trade.Prelude.Action.{IsQuiet, Then, ActsOnlyIf, >>=-ActsOnlyIf, when_some-ActsOnlyIf}
use combine_trade.Core.Types.{Exchange, Timeframe, d1}
use combine_trade.Indicators.Ma.{calc_average, calc_average_short}
use combine_trade.Daemon.Pipeline.{Candle, AllIndicators, PipelineDeps}
use combine_trade.Daemon.Pipeline.Sessions.{all_but_last, sma20_before, process_1d}

length-map : {A B : Type 0} (f : A → B) (xs : List A) → length (map f xs) ≡ length xs
length-map f [] = refl
length-map f (x ∷ xs) = ground (arith, length-map f xs)

length-all_but_last : {A : Type 0} (xs : List A) → length (all_but_last xs) ≤ length xs
length-all_but_last [] = omega arith
length-all_but_last (x ∷ []) = omega arith
length-all_but_last (x ∷ y ∷ xs) = omega (arith, length-all_but_last (y ∷ xs))

module _ {D N A X B : Type 0} (deps : PipelineDeps D N A X) (bias : X → B) (is_nan : N → Bool)
    (to_decimal : N → D) (sma : List N → ℕ → List N) (price : Candle D → N)
    (averages : (candles : List (Candle D))
      → (deps.calc_all_indicators candles).sma20
        ≡ calc_average is_nan to_decimal sma (map price candles) 20)
    (limited : (s : Text) (e : Exchange) (t : Timeframe) (n : ℕ) (x : X) (candles : List (Candle D))
      → (deps.get_candles s e t n x).0 ≡ ok candles
      → length candles ≤ n)
    (candles_kept : (s : Text) (e : Exchange) (t : Timeframe) (n : ℕ)
      → IsQuiet bias (deps.get_candles s e t n)) where
  sma20_before_short :
      (symbol : Text) (exchange : Exchange) (candles : List (Candle D))
      → length candles ≤ 2
      → sma20_before deps symbol exchange candles ≡ none
  unfolding sma20_before
  sma20_before_short symbol exchange candles short =
      let two : length (all_but_last candles) ≤ length candles = length-all_but_last candles in
      let few : length (map price (all_but_last candles)) < 20 =
        omega (arith, length-map price (all_but_last candles), two, short) in
      elim (Bool-cases (leb 2 (length candles))) [
        | inl e ↦ rw e (
            averages (all_but_last candles)
            ∙ calc_average_short is_nan to_decimal sma (map price (all_but_last candles)) 20 few)
        | inr e ↦ rw e refl
      ]

  -- The bias changes only where an average of yesterday is found among two candles.
  abbrev Averaged : Text → Exchange → Candle D → AllIndicators D N → X → Type 0
  Averaged symbol exchange candle indicators x =
      (today : D) × (indicators.sma20 ≡ some today)
      × Then (deps.get_candles symbol exchange d1 2)
          (λ prior y.
            (yesterday : D) × (sma20_before deps symbol exchange prior ≡ some yesterday) × Unit {0})
          x

  process_1d-kept :
      (symbol : Text) (exchange : Exchange) (candle : Candle D) (indicators : AllIndicators D N)
      → ActsOnlyIf bias
          (Averaged symbol exchange candle indicators)
          (process_1d deps symbol exchange candle indicators)
  unfolding process_1d
  process_1d-kept symbol exchange candle indicators = when_some-ActsOnlyIf bias _ _ _ (λ today.
      >>=-ActsOnlyIf bias _ _ _ (candles_kept symbol exchange d1 2) (λ prior.
        when_some-ActsOnlyIf bias (sma20_before deps symbol exchange prior) _ (λ yesterday y. Unit)
          (λ yesterday. record { acts = λ y. inr tt })))

  -- Where candles are read as asked for and averages need as many prices as their period, a 1D candle
  -- never changes the daily bias: yesterday's average of twenty is asked of one candle.
  pub process_1d_unchanged :
      (symbol : Text) (exchange : Exchange) (candle : Candle D) (indicators : AllIndicators D N)
      (x : X)
      → bias (process_1d deps symbol exchange candle indicators x).1 ≡ bias x
  process_1d_unchanged symbol exchange candle indicators x =
      elim ((process_1d-kept symbol exchange candle indicators).acts x) [
        | inl q ↦ q
        | inr (today, e, (prior, y, read, (yesterday, found, done))) ↦
            let none_there = sma20_before_short symbol exchange prior (
              limited symbol exchange d1 2 x prior
                (ap (λ (p : Result Text (List (Candle D)) × X). p.0) read)) in
            cc
      ]
