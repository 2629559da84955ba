-- ===== src/Positions/Tickets/Counts.antt =====
-- Counting the active tickets of a market.
use combine_trade.Prelude.{
  ℕ, ◌+◌, Bool, true, false, List, [], ◌∷◌, some, Text, eq_text_iff, find, any, update_where, All,
  ◌≡◌, ◌↔◌, refl, Bool-cases, inl, inr, arith,
}
use combine_trade.Core.Types.{Exchange}
use combine_trade.Positions.Tickets.{TicketRow, has_id, active_at}

abbrev pub one_if : Bool → ℕ
one_if true = 1
one_if false = 0

module _ {D : Type 0} where
  unfoldable pub count_active : Text → Exchange → List (TicketRow D) → ℕ
  count_active symbol exchange [] = 0
  count_active symbol exchange (t ∷ ts) =
      one_if (active_at symbol exchange t) + count_active symbol exchange ts

  pub any-count_active :
      (symbol : Text) (exchange : Exchange) (ts : List (TicketRow D))
      → (any (active_at symbol exchange) ts ≡ false) ↔ (count_active symbol exchange ts ≡ 0)
  unfolding count_active
  any-count_active symbol exchange [] = ground arith
  any-count_active symbol exchange (t ∷ ts) = ground (arith, any-count_active symbol exchange ts)

  -- No two tickets share an id.
  abbrev pub DistinctIds : List (TicketRow D) → Type 0
  DistinctIds [] = Unit
  DistinctIds (t ∷ ts) = All (λ u. has_id t.id u ≡ false) ts × DistinctIds ts

  -- A rewrite that keeps the market and the id.
  pub record KeepsMarket (f : TicketRow D → TicketRow D) : Type 0 where
    pub symbols : (t : TicketRow D) → (f t).symbol ≡ t.symbol
    pub exchanges : (t : TicketRow D) → (f t).exchange ≡ t.exchange
    pub ids : (t : TicketRow D) → (f t).id ≡ t.id

  update_where_none :
      (id : Text) (f : TicketRow D → TicketRow D) (ts : List (TicketRow D))
      → All (λ u. has_id id u ≡ false) ts
      → update_where (has_id id) f ts ≡ ts
  update_where_none id f [] h = refl
  update_where_none id f (t ∷ ts) (h, hs) = ground (arith, update_where_none id f ts hs)

  -- Rewriting the ticket of an id moves the count by that ticket alone.
  pub count_active-update :
      (symbol : Text) (exchange : Exchange) (id : Text) (f : TicketRow D → TicketRow D)
      (ts : List (TicketRow D)) (t : TicketRow D)
      → DistinctIds ts
      → find (has_id id) ts ≡ some t
      → count_active symbol exchange (update_where (has_id id) f ts)
          + one_if (active_at symbol exchange t)
        ≡ count_active symbol exchange ts + one_if (active_at symbol exchange (f t))
  unfolding count_active
  count_active-update symbol exchange id f [] t d h = cc
  count_active-update symbol exchange id f (u ∷ ts) t (d, ds) h = ground (
    arith,
    eq_text_iff u.id id,
    update_where_none u.id f ts d,
    count_active-update symbol exchange id f ts t ds,
  )

  fresh-update :
      (id new : Text) (f : TicketRow D → TicketRow D) (ts : List (TicketRow D))
      → KeepsMarket f
      → All (λ u. has_id new u ≡ false) ts
      → All (λ u. has_id new u ≡ false) (update_where (has_id id) f ts)
  fresh-update id new f [] k h = tt
  fresh-update id new f (t ∷ ts) k (h, hs) = ground (arith, k.ids t, fresh-update id new f ts k hs)

  pub update-DistinctIds :
      (id : Text) (f : TicketRow D → TicketRow D) (ts : List (TicketRow D))
      → KeepsMarket f
      → DistinctIds ts
      → DistinctIds (update_where (has_id id) f ts)
  update-DistinctIds id f [] k d = tt
  update-DistinctIds id f (t ∷ ts) k (d, ds) =
      let kept = fresh-update id t.id f ts k d in
      let rest = update-DistinctIds id f ts k ds in
      elim (Bool-cases (has_id id t)) [
        | inl e ↦ rw (e, k.ids t) (kept, rest)
        | inr e ↦ rw e (kept, rest)
      ]

  pub find-update :
      (id : Text) (f : TicketRow D → TicketRow D) (ts : List (TicketRow D)) (t : TicketRow D)
      → KeepsMarket f
      → find (has_id id) ts ≡ some t
      → find (has_id id) (update_where (has_id id) f ts) ≡ some (f t)
  find-update id f [] t k h = cc
  find-update id f (u ∷ ts) t k h = ground (arith, k.ids u, find-update id f ts t k)
