-- ===== src/Positions/Tickets/Consistency.antt =====
-- The symbol states agree with the tickets: a market has a position exactly when it has an active
-- ticket, and it has at most one.
use combine_trade.Prelude.{
  ℕ, ◌+◌, ◌≤◌, Bool, true, false, List, [], ◌∷◌, some, Text, eq_text, eq_text_iff, eq_text_refl,
  find, update_where, All, ◌≡◌, ◌∙◌, subst, arith, Bool-cases, inl, inr,
}
use combine_trade.Core.Types.{Exchange, eq_exchange_iff, FsmState, idle, watching, has_position}
use combine_trade.Positions.Tickets.{SymbolStateRow, Db, row_at, same_market}
use combine_trade.Positions.Tickets.Operations.{set_fsm, has_row_id}
use combine_trade.Positions.Tickets.Counts.{count_active, DistinctIds}

-- How many active tickets a market has in each state.
abbrev pub expected_tickets : FsmState → ℕ
expected_tickets has_position = 1
expected_tickets _ = 0

expected-le : (state : FsmState) → expected_tickets state ≤ 1
expected-le idle = omega arith
expected-le watching = omega arith
expected-le has_position = omega arith

abbrev pub Counter : Type 0
Counter = Text → Exchange → ℕ

-- The two counts differ at one market at most.
abbrev pub Elsewhere : Counter → Counter → Text → Exchange → Type 0
Elsewhere n m symbol exchange =
    (s : Text) (e : Exchange) → same_market s e symbol exchange ≡ false → m s e ≡ n s e

pub same_market_eq :
    (m : Counter) (s : Text) (e : Exchange) (symbol : Text) (exchange : Exchange)
    → same_market s e symbol exchange ≡ true
    → m s e ≡ m symbol exchange
same_market_eq m s e symbol exchange h =
    grind (arith, eq_text_iff s symbol, eq_exchange_iff e exchange)

-- Equal markets have equal counts elsewhere.
Elsewhere-at :
    (n m : Counter) (s symbol : Text) (e exchange : Exchange)
    → same_market s e symbol exchange ≡ true
    → Elsewhere n m symbol exchange
    → Elsewhere n m s e
Elsewhere-at n m s symbol e exchange h other s' e' k =
    other s' e' (ground (arith, eq_text_iff s symbol, eq_exchange_iff e exchange))

module _ {D : Type 0} where
  abbrev pub Agrees : Counter → SymbolStateRow D → Type 0
  Agrees n row = n row.symbol row.exchange ≡ expected_tickets row.fsm_state

  -- No two rows share an id or a market.
  abbrev pub DistinctRows : List (SymbolStateRow D) → Type 0
  DistinctRows [] = Unit
  DistinctRows (r ∷ rs) =
      All (λ q. (has_row_id r.id q ≡ false) × (row_at r.symbol r.exchange q ≡ false)) rs
      × DistinctRows rs

  abbrev pub count_in : Db D → Text → Exchange → ℕ
  count_in db symbol exchange = count_active symbol exchange db.tickets

  pub record IsConsistent (db : Db D) : Type 0 where
    pub ids : DistinctIds db.tickets
    pub rows : DistinctRows db.symbol_states
    pub agree :
        All
          (λ row. count_active row.symbol row.exchange db.tickets ≡ expected_tickets row.fsm_state)
          db.symbol_states

  module _ (n m : Counter) (symbol : Text) (exchange : Exchange)
      (other : Elsewhere n m symbol exchange) where
    pub Agrees-idle :
        (now : ℕ) (rows : List (SymbolStateRow D))
        → m symbol exchange + 1 ≡ n symbol exchange
        → All (Agrees n) rows
        → All (Agrees m) (update_where (row_at symbol exchange) (set_fsm idle now) rows)
    Agrees-idle now [] z a = tt
    Agrees-idle now (r ∷ rs) z (a, rest) =
        let next = Agrees-idle now rs z rest in
        elim (Bool-cases (row_at symbol exchange r)) [
          | inl e ↦
              let here : m symbol exchange ≡ 0 = ground (
                arith,
                expected-le r.fsm_state,
                same_market_eq n r.symbol r.exchange symbol exchange e,
                a,
              ) in
              rw e (same_market_eq m r.symbol r.exchange symbol exchange e ∙ here, next)
          | inr e ↦ rw e (other r.symbol r.exchange e ∙ a, next)
        ]

    Agrees-others :
        (id : Text) (now : ℕ) (rows : List (SymbolStateRow D))
        → All (λ q. (has_row_id id q ≡ false) × (row_at symbol exchange q ≡ false)) rows
        → All (Agrees n) rows
        → All (Agrees m) (update_where (has_row_id id) (set_fsm has_position now) rows)
    Agrees-others id now [] d a = tt
    Agrees-others id now (r ∷ rs) ((d, k), ds) (a, rest) =
        rw d (other r.symbol r.exchange k ∙ a, Agrees-others id now rs ds rest)

  find-fresh :
      (id : Text) (rows : List (SymbolStateRow D)) (r : SymbolStateRow D) (s symbol : Text)
      (e exchange : Exchange)
      → All (λ q. (has_row_id id q ≡ false) × (row_at s e q ≡ false)) rows
      → find (row_at symbol exchange) rows ≡ some r
      → eq_text r.id id ≡ false
  find-fresh id [] r s symbol e exchange d h = cc
  find-fresh id (q ∷ rs) r s symbol e exchange (d, ds) h =
      ground (arith, find-fresh id rs r s symbol e exchange ds)

  pub Agrees-position :
      (n m : Counter) (symbol : Text) (exchange : Exchange) (now : ℕ)
      (rows : List (SymbolStateRow D)) (r : SymbolStateRow D)
      → Elsewhere n m symbol exchange
      → m symbol exchange ≡ 1
      → DistinctRows rows
      → find (row_at symbol exchange) rows ≡ some r
      → All (Agrees n) rows
      → All (Agrees m) (update_where (has_row_id r.id) (set_fsm has_position now) rows)
  Agrees-position n m symbol exchange now [] r other z d h a = tt
  Agrees-position n m symbol exchange now (q ∷ rs) r other z (d, ds) h (a, rest) =
      elim (Bool-cases (row_at symbol exchange q)) [
        | inl e ↦
            let found : q ≡ r = ground arith in
            let others =
              Agrees-others n m q.symbol q.exchange
                (Elsewhere-at n m q.symbol symbol q.exchange exchange e other) q.id now rs d rest in
            let head : eq_text q.id q.id ≡ true = eq_text_refl q.id in
            let here = same_market_eq m q.symbol q.exchange symbol exchange e ∙ z in
            subst
              (λ x.
                All (Agrees m) (update_where (has_row_id x.id) (set_fsm has_position now) (q ∷ rs)))
              found (rw head (here, others))
        | inr e ↦
            let tail : find (row_at symbol exchange) rs ≡ some r = ground arith in
            let apart : eq_text r.id q.id ≡ false =
              find-fresh q.id rs r q.symbol symbol q.exchange exchange d tail in
            let apart' : has_row_id r.id q ≡ false =
              ground (arith, eq_text_iff r.id q.id, eq_text_iff q.id r.id) in
            rw apart' (
              other q.symbol q.exchange e ∙ a,
              Agrees-position n m symbol exchange now rs r other z ds tail rest,
            )
      ]

  pub Agrees-same :
      (n m : Counter) (rows : List (SymbolStateRow D))
      → ((s : Text) (e : Exchange) → m s e ≡ n s e)
      → All (Agrees n) rows
      → All (Agrees m) rows
  Agrees-same n m [] same a = tt
  Agrees-same n m (r ∷ rs) same (a, rest) =
      (same r.symbol r.exchange ∙ a, Agrees-same n m rs same rest)

  distinct_head :
      (id symbol : Text) (exchange : Exchange) (p : SymbolStateRow D → Bool) (state : FsmState)
      (now : ℕ) (rows : List (SymbolStateRow D))
      → All (λ q. (has_row_id id q ≡ false) × (row_at symbol exchange q ≡ false)) rows
      → All
          (λ q. (has_row_id id q ≡ false) × (row_at symbol exchange q ≡ false))
          (update_where p (set_fsm state now) rows)
  distinct_head id symbol exchange p state now [] d = tt
  distinct_head id symbol exchange p state now (r ∷ rs) (d, ds) =
      let rest = distinct_head id symbol exchange p state now rs ds in
      elim (Bool-cases (p r)) [ inl e ↦ rw e (d, rest) | inr e ↦ rw e (d, rest) ]

  pub set_fsm-DistinctRows :
      (p : SymbolStateRow D → Bool) (state : FsmState) (now : ℕ) (rows : List (SymbolStateRow D))
      → DistinctRows rows
      → DistinctRows (update_where p (set_fsm state now) rows)
  set_fsm-DistinctRows p state now [] d = tt
  set_fsm-DistinctRows p state now (r ∷ rs) (d, ds) =
      let head = distinct_head r.id r.symbol r.exchange p state now rs d in
      let rest = set_fsm-DistinctRows p state now rs ds in
      elim (Bool-cases (p r)) [ inl e ↦ rw e (head, rest) | inr e ↦ rw e (head, rest) ]
