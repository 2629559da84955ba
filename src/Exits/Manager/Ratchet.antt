-- ===== src/Exits/Manager/Ratchet.antt =====
-- The trailing stop over a run of closes.
use combine_trade.Prelude.{
  Bool, true, none, some, List, [], ◌∷◌, ◌≡◌, inl, inr, refl, arith, Bool-cases, subst,
}
use combine_trade.Prelude.State.{State, ◌>>=◌, pure}
use combine_trade.Core.Types.{Direction, long, short, Exchange}
use combine_trade.Core.Decimal.{Decimal, IsOrdered, ◌≼◌}
use combine_trade.Core.Order.{le_refl, gt→le, lt→le}
use combine_trade.Orders.Record.{Adapter}
use combine_trade.Exits.Manager.{ExitTicket, TrailingUpdateResult}
use combine_trade.Exits.Manager.Trail.{
  process_trailing, wants_update, next_trailing_sl, current_trailing_price,
}
use combine_trade.Exits.Trailing.{should_update_trailing_sl}

module _ {D : Type 0} ⦃dec : Decimal D⦄ where
  -- The second stop protects at least as much as the first.
  abbrev pub AtLeastAsSafe : Direction → D → D → Type 0
  AtLeastAsSafe long old new = old ≼ new
  AtLeastAsSafe short old new = new ≼ old

  -- The ticket with the fields that the result tells the caller to write.
  pub apply_update : ExitTicket D → TrailingUpdateResult D → ExitTicket D
  apply_update ticket r = elim r.new_trailing_price [
    | none ↦ ticket
    | some price ↦ record ticket { trailing_price = some price; max_profit = r.new_max_profit }
  ]

  module _ {X : Type 0} (adapter : Adapter D X) (exchange : Exchange) (supports : Bool) where
    pub follow : ExitTicket D → List D → State X (ExitTicket D)
    unfolding apply_update
    follow ticket [] = pure ticket
    follow ticket (p ∷ ps) = do
      r ← process_trailing adapter ticket p exchange supports
      follow (apply_update ticket r) ps

    module _ (order : IsOrdered D) where
      open order use {le_trans}

      should_update-safe :
          (direction : Direction) (old new : D)
          → should_update_trailing_sl old new direction ≡ true
          → AtLeastAsSafe direction old new
      unfolding should_update_trailing_sl
      should_update-safe long old new h = gt→le order new old h
      should_update-safe short old new h = lt→le order new old h

      safe_refl : (direction : Direction) (y : D) → AtLeastAsSafe direction y y
      safe_refl long y = le_refl order y
      safe_refl short y = le_refl order y

      safe_trans :
          (direction : Direction) (y z w : D)
          → AtLeastAsSafe direction y z
          → AtLeastAsSafe direction z w
          → AtLeastAsSafe direction y w
      safe_trans long y z w h k = le_trans y z w h k
      safe_trans short y z w h k = le_trans w z y k h

      wants_update-safe :
          (ticket : ExitTicket D) (p : D)
          → wants_update ticket p ≡ true
          → AtLeastAsSafe ticket.direction
              (current_trailing_price ticket)
              (next_trailing_sl ticket p)
      unfolding wants_update
      wants_update-safe ticket p h = ground (
        arith,
        should_update-safe ticket.direction (current_trailing_price ticket)
            (next_trailing_sl ticket p),
      )

      step-safe :
          (ticket : ExitTicket D) (p : D) (x : X)
          → let next =
              apply_update ticket (process_trailing adapter ticket p exchange supports x).0 in
            AtLeastAsSafe ticket.direction
              (current_trailing_price ticket)
              (current_trailing_price next)
            × (next.direction ≡ ticket.direction)
            × (next.entry_price ≡ ticket.entry_price)
      unfolding process_trailing apply_update
      step-safe ticket p x = elim (Bool-cases (wants_update ticket p)) [
        | inl e ↦ rw e (wants_update-safe ticket p e, refl, refl)
        | inr e ↦ rw e (safe_refl ticket.direction (current_trailing_price ticket), refl, refl)
      ]

      -- Over any run of closes, with the updates written to the ticket, the trailing stop never becomes
      -- less safe: it does not fall for a long position and does not rise for a short one.
      pub follow-safe :
          (ticket : ExitTicket D) (ps : List D) (x : X)
          → AtLeastAsSafe ticket.direction
              (current_trailing_price ticket)
              (current_trailing_price (follow ticket ps x).0)
      unfolding follow
      follow-safe ticket [] x = safe_refl ticket.direction (current_trailing_price ticket)
      follow-safe ticket (p ∷ ps) x =
          let next =
            apply_update ticket (process_trailing adapter ticket p exchange supports x).0 in
          let (safe, same, _) = step-safe ticket p x in
          safe_trans ticket.direction _ _ _ safe (
            subst
              (λ d. AtLeastAsSafe d (current_trailing_price next) (
                current_trailing_price
                  (follow next ps (process_trailing adapter ticket p exchange supports x).1).0))
              same (follow-safe next ps (process_trailing adapter ticket p exchange supports x).1))
