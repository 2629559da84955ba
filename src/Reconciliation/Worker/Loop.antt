-- ===== src/Reconciliation/Worker/Loop.antt =====
-- startReconciliation of reconciliation/worker.ts: the chain of timers, as a step relation. Timers
-- are numbered; `live` holds those that are set and have neither fired nor been cleared, `timer_id`
-- the variable of the closure that `stop` reads, and `begun` counts the calls of runOnce.
use combine_trade.Prelude.{
  ℕ, suc, ◌-◌, ◌≤◌, ◌==◌, Bool, true, false, not, List, [], ◌∷◌, Option, none, some, IsIn, filter,
  if◌then◌else◌, ◌≡◌, ◌⊎◌, refl, inl, inr, arith, Bool-cases, subst,
}

pub record Worker : Type 0 where
  pub stopped : Bool
  pub timer_id : Option ℕ
  pub live : List ℕ
  pub next_timer : ℕ
  pub running : ℕ
  pub begun : ℕ

-- setTimeout(cycle, …), its number kept in timerId.
set_timer : Worker → Worker
set_timer w = record w {
  timer_id = some w.next_timer;
  live = w.next_timer ∷ w.live;
  next_timer = suc w.next_timer;
}

remove_timer : ℕ → List ℕ → List ℕ
remove_timer i = filter (λ j. not (j == i))

-- The state in which startReconciliation returns the handle.
unfoldable pub started : Worker
unfolding set_timer
started =
    set_timer (record {
      stopped = false;
      timer_id = none;
      live = [];
      next_timer = 0;
      running = 0;
      begun = 0;
    })

-- A timer fires: `cycle` up to its call of runOnce.
unfoldable pub begin_cycle : ℕ → Worker → Worker
unfolding remove_timer
begin_cycle i w =
    let fired = record w { live = remove_timer i w.live } in
    if w.stopped then fired else record fired { running = suc w.running; begun = suc w.begun }

-- runOnce has returned or thrown: the rest of `cycle`.
unfoldable pub end_cycle : Worker → Worker
unfolding set_timer
end_cycle w =
    let ended = record w { running = w.running - 1 } in
    if not w.stopped then set_timer ended else ended

clear_timer : Option ℕ → List ℕ → List ℕ
unfolding remove_timer
clear_timer none live = live
clear_timer (some i) live = remove_timer i live

unfoldable pub stop : Worker → Worker
unfolding clear_timer
stop w = record w { stopped = true; timer_id = none; live = clear_timer w.timer_id w.live }

pub data Step : Worker → Worker → Type 0 where
  fires : (i : ℕ) (w : Worker) → IsIn i w.live → Step w (begin_cycle i w)
  returns : (w : Worker) → 1 ≤ w.running → Step w (end_cycle w)
  stops : (w : Worker) → Step w (stop w)

pub data Reach (w : Worker) : Worker → Type 0 where
  here : Reach w w
  next : {u v : Worker} → Reach w u → Step u v → Reach w v

-- One cycle at a time: either one timer is live, which `stop` would clear, and no cycle runs, or no
-- timer is live and at most one cycle runs; a worker that is not stopped never comes to rest.
abbrev pub IsChain : Worker → Type 0
IsChain w =
    ((i : ℕ) × (w.live ≡ i ∷ []) × (w.timer_id ≡ some i) × (w.running ≡ 0) × (w.stopped ≡ false))
    ⊎ ((w.live ≡ []) × (w.running ≤ 1) × ((w.stopped ≡ false) → w.running ≡ 1))

remove_timer_single : (i j : ℕ) → j ≡ i → remove_timer j (i ∷ []) ≡ []
unfolding remove_timer
remove_timer_single i j e = ground arith

begin_cycle-IsChain : (j : ℕ) (w : Worker) → IsIn j w.live → IsChain w → IsChain (begin_cycle j w)
unfolding begin_cycle
begin_cycle-IsChain j w m (inl (i, l, t, r, s)) =
    let one = subst (IsIn j) l m in
    rw (l, s, r, remove_timer_single i j (ground arith)) (inr (refl, omega arith, λ e. refl))
begin_cycle-IsChain j w m (inr (l, r, c)) = elim (subst (IsIn j) l m) [ ]

end_cycle-IsChain : (w : Worker) → 1 ≤ w.running → IsChain w → IsChain (end_cycle w)
unfolding end_cycle set_timer
end_cycle-IsChain w m (inl (i, l, t, r, s)) = absurd (omega arith)
end_cycle-IsChain w m (inr (l, r, c)) = elim (Bool-cases w.stopped) [
  | inl s ↦ rw s (inr (l, omega arith, λ e. cc))
  | inr s ↦ rw (s, l) (inl (w.next_timer, refl, refl, omega arith, refl))
]

clear_timer_nil : (o : Option ℕ) → clear_timer o [] ≡ []
unfolding clear_timer remove_timer
clear_timer_nil none = refl
clear_timer_nil (some i) = refl

stop-IsChain : (w : Worker) → IsChain w → IsChain (stop w)
unfolding stop clear_timer
stop-IsChain w (inl (i, l, t, r, s)) =
    rw (l, t, r, remove_timer_single i i refl) (inr (refl, omega arith, λ e. cc))
stop-IsChain w (inr (l, r, c)) = rw (l, clear_timer_nil w.timer_id) (inr (refl, r, λ e. cc))

IsChain-stopped : (w : Worker) → w.stopped ≡ true → IsChain w → w.live ≡ []
IsChain-stopped w s (inl (i, l, t, r, s')) = cc
IsChain-stopped w s (inr (l, r, c)) = l

Step-IsChain : {w v : Worker} → Step w v → IsChain w → IsChain v
Step-IsChain (fires i w m) c = begin_cycle-IsChain i w m c
Step-IsChain (returns w m) c = end_cycle-IsChain w m c
Step-IsChain (stops w) c = stop-IsChain w c

-- Whatever fires, returns and stops: cycles never overlap, at most one timer is
-- live, never while a cycle runs, and a worker that was not stopped has a timer or a cycle.
pub Reach-IsChain : {w : Worker} → Reach started w → IsChain w
unfolding started set_timer
Reach-IsChain here = inl (0, refl, refl, refl, refl)
Reach-IsChain (next r s) = Step-IsChain s (Reach-IsChain r)

abbrev IsDone : ℕ → Worker → Type 0
IsDone n w = (w.stopped ≡ true) × (w.live ≡ []) × (w.begun ≡ n)

Step-IsDone : (n : ℕ) {w v : Worker} → Step w v → IsDone n w → IsDone n v
unfolding begin_cycle end_cycle stop
Step-IsDone n (fires i w m) (s, l, b) = elim (subst (IsIn i) l m) [ ]
Step-IsDone n (returns w m) (s, l, b) = rw s (refl, l, b)
Step-IsDone n (stops w) (s, l, b) = (refl, rw l (clear_timer_nil w.timer_id), b)

Reach-IsDone : (n : ℕ) {w v : Worker} → Reach w v → IsDone n w → IsDone n v
Reach-IsDone n here d = d
Reach-IsDone n (next r s) d = Step-IsDone n s (Reach-IsDone n r d)

-- After `stop`, called at any reachable moment, no timer is live and no further cycle begins.
pub stop_ends_cycles :
    (w v : Worker) → Reach started w → Reach (stop w) v → (v.live ≡ []) × (v.begun ≡ w.begun)
unfolding stop
stop_ends_cycles w v r later =
    let stopped_chain = stop-IsChain w (Reach-IsChain r) in
    let (s, l, b) =
      Reach-IsDone w.begun later (refl, IsChain-stopped (stop w) refl stopped_chain, refl) in
    (l, b)
