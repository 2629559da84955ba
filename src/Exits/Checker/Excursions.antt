-- ===== src/Exits/Checker/Excursions.antt =====
-- The excursions over a path of prices.
use combine_trade.Prelude.{List, [], ◌∷◌, All, ◌≡◌, ◌⊎◌, inl, inr, refl, ◌∙◌}
use combine_trade.Core.Types.{Direction}
use combine_trade.Core.Decimal.{Decimal, IsOrdered, ◌≼◌, max}
use combine_trade.Core.Order.{le_refl}
use combine_trade.Exits.Checker.{MfeMaeResult, calc_mfe_mae, clamp, raw_favorable, raw_adverse}

module _ {D : Type 0} ⦃dec : Decimal D⦄ where
  -- The ratchet of `calcMfeMae` along the closes of a position.
  pub track : D → Direction → MfeMaeResult D → List D → MfeMaeResult D
  track entry direction r [] = r
  track entry direction r (p ∷ ps) =
      track entry direction (calc_mfe_mae entry p direction r.mfe r.mae) ps

  abbrev pub Attained : (D → D) → D → List D → D → Type 0
  Attained f prev [] m = m ≡ prev
  Attained f prev (p ∷ ps) m = Attained f prev ps m ⊎ (m ≡ f p)

  -- `m` is the greatest of `prev` and the values of `f` along the path.
  abbrev pub IsPeak : (D → D) → D → List D → D → Type 0
  IsPeak f prev ps m = (prev ≼ m) × All (λ p. f p ≼ m) ps × Attained f prev ps m

  module _ (order : IsOrdered D) where
    open order use {le_trans, le-max_left, le-max_right, max_cases}

    Attained-max :
        (f : D → D) (prev p : D) (ps : List D) (m : D)
        → Attained f (max prev (f p)) ps m
        → Attained f prev (p ∷ ps) m
    Attained-max f prev p [] m a = elim (max_cases prev (f p)) [
      | inl e ↦ inl (a ∙ e)
      | inr e ↦ inr (a ∙ e)
    ]
    Attained-max f prev p (q ∷ ps) m (inl a) = elim (Attained-max f prev p ps m a) [
      | inl b ↦ inl (inl b)
      | inr e ↦ inr e
    ]
    Attained-max f prev p (q ∷ ps) m (inr e) = inl (inr e)

    IsPeak-max :
        (f : D → D) (prev p : D) (ps : List D) (m : D)
        → IsPeak f (max prev (f p)) ps m
        → IsPeak f prev (p ∷ ps) m
    IsPeak-max f prev p ps m (up, rest, a) = (
      le_trans prev (max prev (f p)) m (le-max_left prev (f p)) up,
      (le_trans (f p) (max prev (f p)) m (le-max_right prev (f p)) up, rest),
      Attained-max f prev p ps m a,
    )

    -- After any path of prices the favourable and the adverse excursion are the greatest of the
    -- ones before and those on the path, each counted as zero where it is negative.
    pub track-IsPeak :
        (entry : D) (direction : Direction) (r : MfeMaeResult D) (ps : List D)
        → IsPeak
            (λ p. clamp (raw_favorable direction entry p))
            r.mfe
            ps
            (track entry direction r ps).mfe
          × IsPeak
              (λ p. clamp (raw_adverse direction entry p))
              r.mae
              ps
              (track entry direction r ps).mae
    unfolding track calc_mfe_mae
    track-IsPeak entry direction r [] =
        ((le_refl order r.mfe, tt, refl), (le_refl order r.mae, tt, refl))
    track-IsPeak entry direction r (p ∷ ps) =
        let (f, a) = track-IsPeak entry direction (calc_mfe_mae entry p direction r.mfe r.mae) ps in
        (IsPeak-max _ r.mfe p ps _ f, IsPeak-max _ r.mae p ps _ a)
