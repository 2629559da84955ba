-- ===== src/Positions/Pyramid/Allowed.antt =====
-- Which tickets accept a pyramid entry, and that no order is sent for the others.
use combine_trade.Prelude.{ℕ, ◌<◌, true, false, none, err, ◌≡◌, ◌⊎◌, ◌↔◌, refl, arith, Text}
use combine_trade.Core.Types.{Direction, long, short, TicketState, tp1_hit, tp2_hit}
use combine_trade.Core.Decimal.{Decimal, IsOrdered, ◌≼◌}
use combine_trade.Positions.Tickets.{TicketRow, Db}
use combine_trade.Positions.Pyramid.{
  PyramidConfig, not_allowed, ExecutePyramidParams, is_eligible, at_breakeven, count_or_zero,
  can_pyramid,
}
use combine_trade.Positions.Pyramid.Entry.{plan_pyramid, enter_pyramid, execute_pyramid}

eligible_iff : (s : TicketState) → (is_eligible s ≡ true) ↔ ((s ≡ tp1_hit) ⊎ (s ≡ tp2_hit))
eligible_iff s = ground arith

module _ {D : Type 0} ⦃dec : Decimal D⦄ where
  -- The stop does not lie on the losing side of the entry price.
  abbrev pub Secured : Direction → D → D → Type 0
  Secured long stop entry = entry ≼ stop
  Secured short stop entry = stop ≼ entry

  at_breakeven_iff :
      (order : IsOrdered D) (direction : Direction) (stop entry : D)
      → (at_breakeven direction stop entry ≡ true) ↔ Secured direction stop entry
  at_breakeven_iff order long stop entry = ground (arith, order.gte-eq stop entry)
  at_breakeven_iff order short stop entry = (λ h. h, λ h. h)

  -- A ticket accepts a pyramid entry exactly when it has hit a target and is open, its stop secures the
  -- entry price, and it has had fewer pyramid entries than the configured number; a reason is given exactly
  -- when it does not.
  pub can_pyramid_iff :
      (order : IsOrdered D) (t : TicketRow D) (config : PyramidConfig)
      → (((can_pyramid t config).allowed ≡ true) ↔ (
          ((t.state ≡ tp1_hit) ⊎ (t.state ≡ tp2_hit))
          × Secured t.direction t.current_sl_price t.entry_price
          × count_or_zero t.pyramid_count < config.max_pyramid_count))
        × (((can_pyramid t config).allowed ≡ true) ↔ ((can_pyramid t config).reason ≡ none))
  unfolding can_pyramid
  can_pyramid_iff order t config =
      let (to, from) = at_breakeven_iff order t.direction t.current_sl_price t.entry_price in
      let (to', from') = eligible_iff t.state in ground (arith, to, from, to', from')

  allowed_of_plan :
      {S X : Type 0} (p : ExecutePyramidParams D S X)
      → (can_pyramid p.parent_ticket p.config).allowed ≡ false
      → plan_pyramid p ≡ err (not_allowed (can_pyramid p.parent_ticket p.config).reason)
  unfolding plan_pyramid
  allowed_of_plan p h = rw h refl

  -- For a ticket that does not accept one, a pyramid entry throws, sends no order and leaves the
  -- tables alone.
  pub execute_pyramid_refused :
      {S X : Type 0} (db : Db D) (p : ExecutePyramidParams D S X) (id : Text) (now : ℕ) (x : X)
      → (can_pyramid p.parent_ticket p.config).allowed ≡ false
      → execute_pyramid db p id now x
        ≡ (err (not_allowed (can_pyramid p.parent_ticket p.config).reason), x)
  unfolding execute_pyramid enter_pyramid
  execute_pyramid_refused db p id now x h = rw (allowed_of_plan p h) refl
