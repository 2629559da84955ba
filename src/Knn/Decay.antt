-- ===== src/Knn/Decay.antt =====
-- knn/time-decay.ts. The configuration, which is always empty, is left out.
use combine_trade.Prelude.{
  ℕ, true, ◌/◌, ◌≤◌, ◌-◌, le→leb, leb→le, Bool-cases, List, map, if◌then◌else◌, leb, ◌≡◌, inl, inr,
  arith,
}
use combine_trade.Prelude.Int.{ℤ, pos, negsuc, sub_ℕ}
use combine_trade.Knn.Types.{Number, KnnNeighbor, WeightedNeighbor}

abbrev pub ms_per_day : ℕ
ms_per_day = 86_400_000

abbrev pub recent_days : ℕ
recent_days = 30

abbrev pub medium_days : ℕ
medium_days = 90

-- In whole UTC days.
abbrev pub days_since : ℕ → ℕ → ℤ
days_since created now = sub_ℕ (now / ms_per_day) (created / ms_per_day)

module _ {N : Type 0} ⦃num : Number N⦄ where
  abbrev pub weight_of : ℤ → N
  weight_of (negsuc n) = num.number 1 0
  weight_of (pos n) =
      if leb n recent_days
      then num.number 1 0
      else if leb n medium_days
      then num.number 7 1
      else num.number 2 1

  unfoldable pub calc_time_decay : ℕ → ℕ → N
  calc_time_decay created now = weight_of (days_since created now)

  unfoldable pub apply_time_decay : List (KnnNeighbor N) → ℕ → List (WeightedNeighbor N)
  unfolding calc_time_decay
  apply_time_decay neighbors now =
      map
        (λ (n : KnnNeighbor N). record { neighbor = n; weight = calc_time_decay n.created_at now })
        neighbors

  -- An order of the three weights.
  abbrev pub Heavier : (N → N → Type 0) → Type 0
  Heavier order =
      ((x : N) → order x x)
      × order (num.number 2 1) (num.number 7 1)
      × order (num.number 7 1) (num.number 1 0)
      × order (num.number 2 1) (num.number 1 0)

  weight_of-antitone :
      (order : N → N → Type 0) (m n : ℕ)
      → Heavier order
      → m ≤ n
      → order (weight_of (pos n)) (weight_of (pos m))
  weight_of-antitone order m n (same, a, b, c) h = elim (Bool-cases (leb n recent_days)) [
    | inl e ↦ rw (e, le→leb m recent_days (omega (arith, leb→le n recent_days e))) (same _)
    | inr e ↦ rw e (elim (Bool-cases (leb n medium_days)) [
      | inl g ↦ rw g (elim (Bool-cases (leb m recent_days)) [
        | inl f ↦ rw f b
        | inr f ↦ rw (f, le→leb m medium_days (omega (arith, leb→le n medium_days g))) (same _)
      ])
      | inr g ↦ rw g (elim (Bool-cases (leb m recent_days)) [
        | inl f ↦ rw f c
        | inr f ↦
            rw f (elim (Bool-cases (leb m medium_days)) [ inl k ↦ rw k a | inr k ↦ rw k (same _) ])
      ])
    ])
  ]

  days-antitone :
      (order : N → N → Type 0) (older newer now : ℕ)
      → Heavier order
      → older ≤ newer
      → order (weight_of (sub_ℕ now older)) (weight_of (sub_ℕ now newer))
  days-antitone order older newer now heavier h = elim (Bool-cases (leb newer now)) [
    | inl e ↦
        let f : leb older now ≡ true = le→leb older now (omega (arith, leb→le newer now e)) in
        rw (e, f) (weight_of-antitone order (now - newer) (now - older) heavier (omega arith))
    | inr e ↦ rw e (elim (Bool-cases (leb older now)) [
      | inl f ↦ rw f (weight_of-antitone order 0 (now - older) heavier (omega arith))
      | inr f ↦ rw f (heavier.0 _)
    ])
  ]

  -- Of two neighbours the older never weighs more, whatever order the three weights are in.
  pub calc_time_decay-antitone :
      (order : N → N → Type 0) (older newer now : ℕ)
      → Heavier order
      → older ≤ newer
      → order (calc_time_decay older now) (calc_time_decay newer now)
  unfolding calc_time_decay
  calc_time_decay-antitone order older newer now heavier h =
      days-antitone order (older / ms_per_day) (newer / ms_per_day) (now / ms_per_day) heavier
        (omega arith)
