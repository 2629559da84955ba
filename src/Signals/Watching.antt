-- ===== src/Signals/Watching.antt =====
-- signals/watching.ts: its detections and checkInvalidation. The context data, which is only stored, is
-- left out.
use combine_trade.Prelude.{
  Bool, true, false, not, ◌&&◌, List, [], ◌∷◌, Option, none, some, Text, codes, length, filter, ltb,
  if◌then◌else◌,
}
use combine_trade.Core.Types.{Direction, long, short, DailyBias, long_only, short_only, neutral}
use combine_trade.Core.Decimal.{Decimal, nought, lit, add, sub, mul, abs, lte, gte, lt, gt, is_zero}
use combine_trade.Daemon.Pipeline.{
  Candle, BollingerResult, AllIndicators, WatchSession, WatchingResult, squeeze_breakout,
  sr_confluence, bb4_touch, SqueezeState, expansion,
}

pub record SrSymbolState (D : Type 0) : Type 0 where
  pub daily_open : Option D
  pub prev_day_high : Option D
  pub prev_day_low : Option D

abbrev pub is_direction_allowed : Direction → DailyBias → Bool
is_direction_allowed long long_only = true
is_direction_allowed short long_only = false
is_direction_allowed long short_only = false
is_direction_allowed short short_only = true
is_direction_allowed direction neutral = true

-- a ?? b
abbrev pub first_of {ℓ} : {A : Type ℓ} → Option A → Option A → Option A
first_of none b = b
first_of (some a) b = some a

-- The levels that there are.
abbrev pub present : {A : Type 0} → List (Option A) → List A
present [] = []
present (none ∷ rest) = present rest
present (some a ∷ rest) = a ∷ present rest

module _ {D : Type 0} ⦃dec : Decimal D⦄ where
  -- The wick beyond the close has half of the range or more.
  abbrev pub is_wick : Candle D → D → Bool
  is_wick candle wick =
      let range = sub candle.high candle.low in
      not (is_zero range) && gte (dec.divided_by wick range) (lit 5 1)

  abbrev pub breakout : Direction → D → D → WatchingResult D
  breakout direction sma20 tp2 = record {
    detection_type = squeeze_breakout;
    direction = direction;
    tp1_price = sma20;
    tp2_price = tp2;
  }

  unfoldable pub breakout_at :
      Candle D → DailyBias → BollingerResult D → D → Option (WatchingResult D)
  breakout_at candle bias bb20 sma20 =
      if gt candle.close bb20.upper && is_direction_allowed long bias
      then if is_wick candle (sub candle.high candle.close)
        then none
        else some (breakout long sma20 bb20.lower)
      else if lt candle.close bb20.lower && is_direction_allowed short bias
      then if is_wick candle (sub candle.close candle.low)
        then none
        else some (breakout short sma20 bb20.upper)
      else none

  abbrev pub squeezed_out :
      SqueezeState
      → Candle D
      → DailyBias
      → Option (BollingerResult D)
      → Option D
      → Option (WatchingResult D)
  squeezed_out expansion candle bias (some bb20) (some sma20) = breakout_at candle bias bb20 sma20
  squeezed_out _ candle bias _ _ = none

  abbrev pub levels_of : Option (SrSymbolState D) → List (Option D)
  levels_of none = []
  levels_of (some state) = state.daily_open ∷ state.prev_day_high ∷ state.prev_day_low ∷ []

  abbrev pub total : D → List D → D
  total sum [] = sum
  total sum (x ∷ xs) = total (add sum x) xs

  abbrev pub near_levels : D → D → List D → List D
  near_levels close threshold levels = filter (λ level. lt (abs (sub close level)) threshold) levels

  abbrev pub confluent : Direction → DailyBias → D → BollingerResult D → Option (WatchingResult D)
  confluent direction bias sma20 bb20 =
      if is_direction_allowed direction bias
      then some (record {
        detection_type = sr_confluence;
        direction = direction;
        tp1_price = sma20;
        tp2_price = elim direction [ long ↦ bb20.upper | short ↦ bb20.lower ];
      })
      else none

  abbrev pub confluence_of :
      D → DailyBias → D → BollingerResult D → List D → Option (WatchingResult D)
  confluence_of close bias sma20 bb20 near =
      if ltb (length near) 2
      then none
      else confluent
          (if gt (dec.divided_by (total nought near) (lit (length near) 0)) close
            then short
            else long)
          bias sma20 bb20

  abbrev pub confluence_at :
      D
      → DailyBias
      → List D
      → Option D
      → Option (BollingerResult D)
      → Option D
      → Option (WatchingResult D)
  confluence_at close bias levels (some atr14) (some bb20) (some sma20) =
      confluence_of close bias sma20 bb20 (near_levels close (mul atr14 (lit 3 1)) levels)
  confluence_at close bias levels _ _ _ = none

  unfoldable pub touch_at :
      Candle D → DailyBias → BollingerResult D → BollingerResult D → D → Option (WatchingResult D)
  touch_at candle bias bb4 bb20 sma20 =
      if lte candle.close bb4.lower && is_direction_allowed long bias
      then some (record {
        detection_type = bb4_touch;
        direction = long;
        tp1_price = sma20;
        tp2_price = bb20.upper;
      })
      else if gte candle.close bb4.upper && is_direction_allowed short bias
      then some (record {
        detection_type = bb4_touch;
        direction = short;
        tp1_price = sma20;
        tp2_price = bb20.lower;
      })
      else none

  abbrev pub touch_within :
      Candle D
      → DailyBias
      → Option (BollingerResult D)
      → Option (BollingerResult D)
      → Option D
      → Option (WatchingResult D)
  touch_within candle bias (some bb4) (some bb20) (some sma20) = touch_at candle bias bb4 bb20 sma20
  touch_within candle bias _ _ _ = none

  -- The price has left the opposite band.
  abbrev pub has_broken_out : Direction → D → BollingerResult D → Bool
  has_broken_out long close bb20 = lt close bb20.lower
  has_broken_out short close bb20 = gt close bb20.upper

  abbrev pub breakout_reason : Direction → D → Option (BollingerResult D) → Option Text
  breakout_reason direction close none = none
  breakout_reason direction close (some bb20) =
      if has_broken_out direction close bb20 then some (codes "price_breakout") else none

  module _ {N : Type 0} where
    unfoldable pub detect_squeeze_breakout :
        Candle D → AllIndicators D N → DailyBias → Option (WatchingResult D)
    unfolding breakout_at
    detect_squeeze_breakout candle indicators bias =
        squeezed_out indicators.squeeze candle bias indicators.bb20 indicators.sma20

    abbrev pub candidate_levels : AllIndicators D N → Option (SrSymbolState D) → List D
    candidate_levels indicators state =
        present (indicators.sma20 ∷ indicators.sma60 ∷ indicators.sma120 ∷ levels_of state)

    unfoldable pub detect_sr_confluence :
        Candle D
        → AllIndicators D N
        → DailyBias
        → Option (SrSymbolState D)
        → Option (WatchingResult D)
    detect_sr_confluence candle indicators bias state =
        confluence_at candle.close bias (candidate_levels indicators state) indicators.atr14
          indicators.bb20 indicators.sma20

    unfoldable pub detect_bb4_touch :
        Candle D → AllIndicators D N → DailyBias → Option (WatchingResult D)
    unfolding touch_at
    detect_bb4_touch candle indicators bias =
        touch_within candle bias indicators.bb4 indicators.bb20 indicators.sma20

    unfoldable pub detect_watching :
        Candle D
        → AllIndicators D N
        → DailyBias
        → Option (SrSymbolState D)
        → Option (WatchingResult D)
    unfolding detect_squeeze_breakout detect_sr_confluence detect_bb4_touch
    detect_watching candle indicators bias state =
        first_of (detect_squeeze_breakout candle indicators bias) (
          first_of (detect_sr_confluence candle indicators bias state)
            (detect_bb4_touch candle indicators bias))

    unfoldable pub check_invalidation :
        Candle D → AllIndicators D N → WatchSession D → Option DailyBias → Option Text
    check_invalidation candle indicators session none =
        breakout_reason session.direction candle.close indicators.bb20
    check_invalidation candle indicators session (some neutral) =
        some (codes "bias_changed_to_neutral")
    check_invalidation candle indicators session (some long_only) =
        if not (is_direction_allowed session.direction long_only)
        then some (codes "bias_changed")
        else breakout_reason session.direction candle.close indicators.bb20
    check_invalidation candle indicators session (some short_only) =
        if not (is_direction_allowed session.direction short_only)
        then some (codes "bias_changed")
        else breakout_reason session.direction candle.close indicators.bb20
