-- ===== src/Exits/Checker/Fires.antt =====
-- Which exit fires, and where it takes the ticket.
use combine_trade.Prelude.{ℕ, ◌+◌, ◌≤◌, ◌<◌, true, Option, none, some, ◌≡◌, ◌≢◌, ◌↔◌, arith, refl}
use combine_trade.Core.Types.{
  TicketState, initial, tp1_hit, tp2_hit, closed, Timeframe, m5, Direction, long, short,
}
use combine_trade.Core.Decimal.{Decimal, IsOrdered, ◌≼◌}
use combine_trade.Positions.Fsm.{can_transition}
use combine_trade.Exits.Checker.{
  CheckExitInput, ExitActionType, tp1, tp2, time_exit, no_exit, check_exit, checks_targets, reaches,
  time_exit_threshold_ms,
}

-- The close of a 5M candle, or a price of no timeframe.
abbrev pub OnFiveMinutes : Option Timeframe → Type 0
OnFiveMinutes none = Unit
OnFiveMinutes (some timeframe) = timeframe ≡ m5

checks_targets-OnFiveMinutes :
    (timeframe : Option Timeframe) → (checks_targets timeframe ≡ true) ↔ OnFiveMinutes timeframe
unfolding checks_targets
checks_targets-OnFiveMinutes none = (λ h. tt, λ h. refl)
checks_targets-OnFiveMinutes (some timeframe) = ground arith

module _ {D : Type 0} ⦃dec : Decimal D⦄ where
  -- The position has been held for at most 60 hours.
  abbrev pub InTime : CheckExitInput D → ℕ → Type 0
  InTime t now = now ≤ t.opened_at + time_exit_threshold_ms

  -- The price has come to the target from the side of the entry, or is past it.
  abbrev pub AtTarget : Direction → D → D → Type 0
  AtTarget long price target = target ≼ price
  AtTarget short price target = price ≼ target

  abbrev pub ReachesTarget : Direction → D → Option D → Type 0
  ReachesTarget direction price target = (tp : D) × (target ≡ some tp) × AtTarget direction price tp

  -- The rule for each exit; there is none for staying.
  abbrev pub Fires : ExitActionType → CheckExitInput D → D → ℕ → Option Timeframe → Type 0
  Fires time_exit t price now timeframe =
      (t.state ≢ closed) × (t.opened_at + time_exit_threshold_ms < now)
  Fires tp1 t price now timeframe =
      (t.state ≡ initial)
      × InTime t now
      × OnFiveMinutes timeframe
      × ReachesTarget t.direction price t.tp1_price
  Fires tp2 t price now timeframe =
      (t.state ≡ tp1_hit)
      × InTime t now
      × OnFiveMinutes timeframe
      × ReachesTarget t.direction price t.tp2_price
  Fires no_exit t price now timeframe = ⊥

  module _ (order : IsOrdered D) where
    open order use {gte-eq}

    reaches-ReachesTarget :
        (direction : Direction) (price : D) (target : Option D)
        → (reaches direction price target ≡ true) ↔ ReachesTarget direction price target
    unfolding reaches
    reaches-ReachesTarget direction price none = ground arith
    reaches-ReachesTarget long price (some tp) =
        (λ h. (tp, refl, rw (← gte-eq price tp) h), λ (u, e, h). ground (arith, gte-eq price u))
    reaches-ReachesTarget short price (some tp) = (λ h. (tp, refl, h), λ (u, e, h). ground arith)

    type-time_exit :
        (t : CheckExitInput D) (price : D) (now : ℕ) (timeframe : Option Timeframe)
        → ((check_exit t price now timeframe).type ≡ time_exit)
          ↔ Fires time_exit t price now timeframe
    unfolding check_exit
    type-time_exit t price now timeframe = ground arith

    -- An exit fires exactly when its rule holds.
    pub check_exit-Fires :
        (t : CheckExitInput D) (price : D) (now : ℕ) (timeframe : Option Timeframe)
        (a : ExitActionType)
        → a ≢ no_exit
        → ((check_exit t price now timeframe).type ≡ a) ↔ Fires a t price now timeframe
    unfolding check_exit
    check_exit-Fires t price now timeframe tp1 h = ground (
      arith,
      reaches-ReachesTarget t.direction price t.tp1_price,
      checks_targets-OnFiveMinutes timeframe,
    )
    check_exit-Fires t price now timeframe tp2 h = ground (
      arith,
      reaches-ReachesTarget t.direction price t.tp2_price,
      checks_targets-OnFiveMinutes timeframe,
    )
    check_exit-Fires t price now timeframe time_exit h = type-time_exit t price now timeframe
    check_exit-Fires t price now timeframe no_exit h = absurd (h refl)

-- actionTypeToNewState of exits/manager.ts.
unfoldable pub action_type_to_new_state : ExitActionType → Option TicketState
action_type_to_new_state tp1 = some tp1_hit
action_type_to_new_state tp2 = some tp2_hit
action_type_to_new_state time_exit = some closed
action_type_to_new_state no_exit = none

module _ {D : Type 0} ⦃dec : Decimal D⦄ where
  -- Whatever exit fires, the state that the manager moves the ticket to is one that the state
  -- machine allows from the ticket's own.
  pub check_exit-can_transition :
      (t : CheckExitInput D) (price : D) (now : ℕ) (timeframe : Option Timeframe) (s : TicketState)
      → action_type_to_new_state (check_exit t price now timeframe).type ≡ some s
      → can_transition t.state s ≡ true
  unfolding check_exit action_type_to_new_state can_transition
  check_exit-can_transition t price now timeframe s h = ground arith
