-- ===== src/Knn/Types.antt =====
-- The types of knn/engine.ts, knn/time-decay.ts and knn/decision.ts. A JavaScript number that may be
-- a fraction is in `N`, with the operations that the code uses at finite values.
use combine_trade.Prelude.{ℕ, Bool, Option, Text}

pub record Number (N : Type 0) : Type 0 where
  -- m / 10 ^ k
  pub number : ℕ → ℕ → N
  pub plus : N → N → N
  pub minus : N → N → N
  pub times : N → N → N
  pub divided_by : N → N → N
  pub greater : N → N → Bool
  pub greater_or_equal : N → N → Bool

pub data DistanceMetric : Type 0 where
  cosine l2 : DistanceMetric

pub record KnnConfig : Type 0 where
  pub top_k : ℕ
  pub distance_metric : DistanceMetric

pub record KnnNeighbor (N : Type 0) : Type 0 where
  pub vector_id : Text
  pub distance : N
  pub label : Option Text
  pub grade : Option Text
  pub created_at : ℕ

pub record WeightedNeighbor (N : Type 0) : Type 0 where
  pub neighbor : KnnNeighbor N
  pub weight : N

pub data KnnDecision : Type 0 where
  pass fail skip : KnnDecision

pub record KnnDecisionResult (N : Type 0) : Type 0 where
  pub decision : KnnDecision
  pub win_rate : N
  pub expectancy : N
  pub sample_count : ℕ
  pub a_grade : Bool

pub record KnnDecisionConfig (N : Type 0) : Type 0 where
  pub winrate_threshold : N
  pub min_samples : ℕ
  pub a_grade_winrate_threshold : N
  pub a_grade_min_samples : ℕ
  pub commission_pct : N
