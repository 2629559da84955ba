-- ===== src/Positions/Fsm/Runs.antt =====
-- Runs of the two state machines.
use combine_trade.Prelude.{
  ℕ, ◌+◌, ◌≤◌, ◌<◌, true, List, [], ◌∷◌, Result, ok, ◌≡◌, ◌↔◌, arith, length, IsIn, ◌>>=◌, ◌>>◌,
  >>=-eq-ok, ◌⊎◌,
}
use combine_trade.Core.Types.{
  TicketState, initial, tp1_hit, tp2_hit, closed, FsmState, idle, watching, has_position, Error,
}
use combine_trade.Positions.Fsm.{
  FsmEvent, can_transition, get_next_state, validate_symbol_state_transition, event_to_target,
}

-- The two maps agree: a transition is allowed exactly when the event named after its target leads
-- there, and an accepted event leads to its own target.
pub get_next_state-can_transition :
    (from to : TicketState) (event : FsmEvent)
    → (get_next_state from event ≡ ok to)
      ↔ ((event_to_target event ≡ to) × (can_transition from to ≡ true))
unfolding get_next_state can_transition
get_next_state-can_transition from to event = ground arith

-- The events of a ticket, in turn.
unfoldable pub run_events : TicketState → List FsmEvent → Result Error TicketState
run_events s [] = ok s
run_events s (e ∷ es) = do t ← get_next_state s e; run_events t es

-- How far along its life a ticket is.
abbrev pub rank : TicketState → ℕ
rank initial = 0
rank tp1_hit = 1
rank tp2_hit = 2
rank closed = 3

step-rank : (s t : TicketState) (e : FsmEvent) → get_next_state s e ≡ ok t → rank s < rank t
unfolding get_next_state
step-rank s t e h = ground arith

-- An accepted run of events has at most as many events as the rank of the ticket rises, so that no
-- ticket takes more than three, and a closed one takes none.
pub run_events-rank :
    (s t : TicketState) (es : List FsmEvent) → run_events s es ≡ ok t → rank s + length es ≤ rank t
unfolding run_events
run_events-rank s t [] h = ground arith
run_events-rank s t (e ∷ es) h =
    let (u, first, rest) = >>=-eq-ok (get_next_state s e) _ h in
    omega (arith, step-rank s u e first, run_events-rank u t es rest)

-- The states that a symbol goes through, each change validated.
unfoldable pub run_symbol : FsmState → List FsmState → Result Error FsmState
run_symbol s [] = ok s
run_symbol s (t ∷ ts) = do validate_symbol_state_transition s t; run_symbol t ts

validated-IsIn :
    (s t : FsmState)
    → validate_symbol_state_transition s t ≡ ok tt
    → IsIn watching (t ∷ []) ⊎ ((t ≡ has_position) × (s ≡ watching)) ⊎ (t ≡ idle)
unfolding validate_symbol_state_transition
validated-IsIn s t h = ground arith

-- The same from any state but HAS_POSITION itself.
run_symbol-visits :
    (s : FsmState) (ts : List FsmState)
    → run_symbol s ts ≡ ok has_position
    → (s ≡ has_position) ⊎ IsIn watching (s ∷ ts)
unfolding run_symbol
run_symbol-visits s [] h = ground arith
run_symbol-visits s (t ∷ ts) h =
    let (u, first, rest) = >>=-eq-ok (validate_symbol_state_transition s t) _ h in
    ground (arith, validated-IsIn s t, run_symbol-visits t ts rest)

-- A symbol that starts idle has a position only after it has been watched.
pub run_symbol-watching :
    (ts : List FsmState) → run_symbol idle ts ≡ ok has_position → IsIn watching ts
run_symbol-watching ts h = ground (arith, run_symbol-visits idle ts h)
