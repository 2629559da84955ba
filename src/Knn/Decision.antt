-- ===== src/Knn/Decision.antt =====
-- makeDecision of knn/decision.ts. A null label counts as no label; any label but WIN and LOSS counts as a
-- time exit.
use combine_trade.Prelude.{
  ℕ, Bool, true, false, ◌&&◌, List, [], ◌∷◌, none, some, Text, codes, eq_text, filter, length,
  if◌then◌else◌, ltb, ◌≡◌, ◌↔◌, ◌<◌, ◌≤◌, arith,
}
use combine_trade.Knn.Types.{
  Number, WeightedNeighbor, pass, fail, skip, KnnDecisionResult, KnnDecisionConfig,
}

abbrev pub is_labeled : {N : Type 0} → WeightedNeighbor N → Bool
is_labeled n = elim n.neighbor.label [ none ↦ false | some label ↦ true ]

abbrev pub has_label : {N : Type 0} → Text → WeightedNeighbor N → Bool
has_label text n = elim n.neighbor.label [ none ↦ false | some label ↦ eq_text label text ]

module _ {N : Type 0} ⦃num : Number N⦄ where
  -- 1 - 2: numbers below zero are written as differences.
  abbrev pub pnl_dir : WeightedNeighbor N → N
  pnl_dir n =
      if has_label (codes "WIN") n
      then num.number 1 0
      else if has_label (codes "LOSS") n
      then num.minus (num.number 0 0) (num.number 1 0)
      else num.minus (num.number 0 0) (num.number 5 1)

  abbrev pub is_win : WeightedNeighbor N → N
  is_win n = if has_label (codes "WIN") n then num.number 1 0 else num.number 0 0

  -- The three sums of the loop, from the left.
  unfoldable pub weighted_sums : List (WeightedNeighbor N) → N × N × N → N × N × N
  weighted_sums [] sums = sums
  weighted_sums (n ∷ ns) (weights, wins, expectancy) = weighted_sums ns (
    num.plus weights n.weight,
    num.plus wins (num.times n.weight (is_win n)),
    num.plus expectancy (num.times n.weight (pnl_dir n)),
  )

  -- A quotient by the sum of the weights, zero where that is not positive.
  abbrev pub mean : N → N → N
  mean weights sum =
      if num.greater weights (num.number 0 0) then num.divided_by sum weights else num.number 0 0

  abbrev pub effective_min_samples : Bool → KnnDecisionConfig N → ℕ
  effective_min_samples a_grade config =
      if a_grade then config.a_grade_min_samples else config.min_samples

  abbrev pub effective_threshold : Bool → KnnDecisionConfig N → N
  effective_threshold a_grade config =
      if a_grade then config.a_grade_winrate_threshold else config.winrate_threshold

  abbrev pub labeled : List (WeightedNeighbor N) → List (WeightedNeighbor N)
  labeled neighbors = filter is_labeled neighbors

  abbrev pub sums_of : List (WeightedNeighbor N) → N × N × N
  sums_of neighbors =
      weighted_sums (labeled neighbors) (num.number 0 0, num.number 0 0, num.number 0 0)

  abbrev pub win_rate_of : List (WeightedNeighbor N) → N
  win_rate_of neighbors = mean (sums_of neighbors).0 (sums_of neighbors).1

  -- After fees.
  abbrev pub expectancy_of : KnnDecisionConfig N → List (WeightedNeighbor N) → N
  expectancy_of config neighbors =
      num.minus (mean (sums_of neighbors).0 (sums_of neighbors).2) config.commission_pct

  unfoldable pub make_decision :
      List (WeightedNeighbor N) → Bool → KnnDecisionConfig N → KnnDecisionResult N
  unfolding weighted_sums
  make_decision neighbors a_grade config =
      if ltb (length (labeled neighbors)) (effective_min_samples a_grade config)
      then record {
        decision = skip;
        win_rate = num.number 0 0;
        expectancy = num.number 0 0;
        sample_count = length (labeled neighbors);
        a_grade = false;
      }
      else record {
        decision =
            if num.greater_or_equal (win_rate_of neighbors) (effective_threshold a_grade config)
              && num.greater (expectancy_of config neighbors) (num.number 0 0)
            then pass
            else fail;
        win_rate = win_rate_of neighbors;
        expectancy = expectancy_of config neighbors;
        sample_count = length (labeled neighbors);
        a_grade = a_grade;
      }

  -- The decision is SKIP exactly when there are fewer labelled neighbours than the grade asks for, and
  -- PASS exactly when there are enough, the rate of wins reaches the threshold of the grade, and the
  -- expectancy after fees is positive.
  pub make_decision_iff :
      (neighbors : List (WeightedNeighbor N)) (a_grade : Bool) (config : KnnDecisionConfig N)
      → (((make_decision neighbors a_grade config).decision ≡ skip)
          ↔ (length (labeled neighbors) < effective_min_samples a_grade config))
        × (((make_decision neighbors a_grade config).decision ≡ pass) ↔ (
            (effective_min_samples a_grade config ≤ length (labeled neighbors))
            × (num.greater_or_equal (win_rate_of neighbors) (effective_threshold a_grade config)
                ≡ true)
            × (num.greater (expectancy_of config neighbors) (num.number 0 0) ≡ true)))
  unfolding make_decision
  make_decision_iff neighbors a_grade config = ground arith
