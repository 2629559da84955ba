-- ===== src/Positions/Fsm.antt =====
-- positions/fsm.ts: the ticket and the symbol state machines.
pub mod Runs
use combine_trade.Prelude.{
  Bool, true, false, List, [], ◌∷◌, Option, none, some, Result, ok, err, any, throw_if, not, ◌≡◌,
  ◌↔◌, refl, arith,
}
use combine_trade.Core.Types.{
  TicketState, initial, tp1_hit, tp2_hit, closed, FsmState, idle, watching, has_position, Error,
  invalid_transition, invalid_symbol_state_transition, eq_state, eq_fsm,
}

pub data FsmEvent : Type 0 where
  tp1_hit_event tp2_hit_event close_event : FsmEvent

-- TRANSITION_MAP
unfoldable pub transition_map : TicketState → List TicketState
transition_map initial = tp1_hit ∷ closed ∷ []
transition_map tp1_hit = tp2_hit ∷ closed ∷ []
transition_map tp2_hit = closed ∷ []
transition_map closed = []

-- EVENT_MAP; `none` is a key that is not there.
unfoldable pub event_map : TicketState → FsmEvent → Option TicketState
event_map initial tp1_hit_event = some tp1_hit
event_map initial close_event = some closed
event_map tp1_hit tp2_hit_event = some tp2_hit
event_map tp1_hit close_event = some closed
event_map tp2_hit close_event = some closed
event_map _ _ = none

unfoldable pub can_transition : TicketState → TicketState → Bool
unfolding transition_map
can_transition from to = any (eq_state to) (transition_map from)

unfoldable pub validate_transition : TicketState → TicketState → Result Error (Unit {0})
unfolding can_transition
validate_transition from to = throw_if (not (can_transition from to)) (invalid_transition from to)

unfoldable pub event_to_target : FsmEvent → TicketState
event_to_target tp1_hit_event = tp1_hit
event_to_target tp2_hit_event = tp2_hit
event_to_target close_event = closed

unfoldable pub get_next_state : TicketState → FsmEvent → Result Error TicketState
unfolding event_map event_to_target
get_next_state current event = elim (event_map current event) [
  | none ↦ err (invalid_transition current (event_to_target event))
  | some next ↦ ok next
]

unfoldable pub get_allowed_transitions : TicketState → List TicketState
unfolding transition_map
get_allowed_transitions current = transition_map current

-- SYMBOL_STATE_TRANSITION_MAP
unfoldable pub symbol_state_transition_map : FsmState → List FsmState
symbol_state_transition_map idle = watching ∷ []
symbol_state_transition_map watching = has_position ∷ idle ∷ []
symbol_state_transition_map has_position = idle ∷ []

unfoldable pub can_symbol_state_transition : FsmState → FsmState → Bool
unfolding symbol_state_transition_map
can_symbol_state_transition from to = any (eq_fsm to) (symbol_state_transition_map from)

unfoldable pub validate_symbol_state_transition : FsmState → FsmState → Result Error (Unit {0})
unfolding can_symbol_state_transition
validate_symbol_state_transition from to =
    throw_if (not (can_symbol_state_transition from to)) (invalid_symbol_state_transition from to)

unfoldable pub get_allowed_symbol_state_transitions : FsmState → List FsmState
unfolding symbol_state_transition_map
get_allowed_symbol_state_transitions current = symbol_state_transition_map current
