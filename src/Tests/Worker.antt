-- ===== src/Tests/Worker.antt =====
-- A cycle whose close fails, with one exchange that cannot be fetched, and a run of the timer chain.
use combine_trade.Prelude.{
  true, List, [], ◌∷◌, none, Text, codes, ok, err, IsIn, All, inl, inr, ◌≡◌, refl, sym,
  ok_injective, arith,
}
use combine_trade.Prelude.Int.{ℤ, pos}
use combine_trade.Core.Types.{Exchange, binance, okx, long}
use combine_trade.Reconciliation.Comparator.{
  ExchangePosition, TicketSnapshot, ReconciliationResult, compare_positions, is_recent_ticket,
}
use combine_trade.Reconciliation.Worker.{Source, ReconciliationDeps}
use combine_trade.Reconciliation.Worker.Cycle.{fetch_all, has_adapter, act, run_once}
use combine_trade.Reconciliation.Worker.Handled.{Lasts, act_handles_every}
use combine_trade.Reconciliation.Worker.Unfetched.{run_once_idles_unfetched}
use combine_trade.Reconciliation.Worker.Loop.{
  started, begin_cycle, end_cycle, stop, fires, returns, here, next, IsChain, Reach-IsChain,
  stop_ends_cycles,
}

data Call : Type 0 where
  closing : ExchangePosition ℤ → Call
  idling : Text → Exchange → Call

abbrev World : Type 0
World = List Call

abbrev position : ExchangePosition ℤ
position = record {
  symbol = codes "BTCUSDT";
  exchange = binance;
  side = long;
  size = pos 10_000;
  entry_price = pos 1_000_000;
  unrealized_pnl = pos 0;
  leverage = 3;
  liquidation_price = none;
}

abbrev ticket : TicketSnapshot
ticket = record {
  id = codes "t1";
  symbol = codes "ETHUSDT";
  exchange = okx;
  direction = long;
  state = codes "INITIAL";
  created_at = 1_000;
}

abbrev binance_source : Source ℤ World
binance_source = record { exchange = binance; fetch_positions = λ x. (ok (position ∷ []), x) }

abbrev okx_source : Source ℤ World
okx_source = record { exchange = okx; fetch_positions = λ x. (err (codes "timeout"), x) }

abbrev sources : List (Source ℤ World)
sources = binance_source ∷ okx_source ∷ []

-- The close fails, and the calls are kept.
abbrev deps : ReconciliationDeps ℤ World
deps = record {
  get_active_tickets = λ x. (ok (ticket ∷ []), x);
  get_pending_symbols = λ x. (ok [], x);
  emergency_close = λ p x. (err (codes "rejected"), closing p ∷ x);
  set_symbol_state_idle = λ s e x. (ok tt, idling s e ∷ x);
  insert_event = λ e x. (ok tt, x);
  now = λ x. (5_000, x);
}

abbrev IsClosed : ExchangePosition ℤ → World → Type 0
IsClosed p x = IsIn (closing p) x

abbrev IsIdled : Text → Exchange → World → Type 0
IsIdled s e x = IsIn (idling s e) x

IsIn-Lasts : (c : Call) → Lasts deps (IsIn c)
IsIn-Lasts c = (λ p x h. inr h, λ s e x h. inr h, λ e x h. h, λ x h. h)

abbrev compared : ReconciliationResult ℤ
compared = compare_positions (position ∷ []) (ticket ∷ []) [] 5_000

act_handles_every_example :
    All
      (λ p.
        has_adapter sources p.exchange ≡ true
        → IsClosed p (act deps sources 5_000 [] compared []).1)
      compared.unmatched
    × All
        (λ t. IsIdled t.symbol t.exchange (act deps sources 5_000 [] compared []).1)
        compared.orphaned
act_handles_every_example =
    act_handles_every deps IsClosed IsIdled (λ p x. inl refl) (λ s e x. inl refl)
      (λ p. IsIn-Lasts (closing p)) (λ s e. IsIn-Lasts (idling s e)) sources 5_000 [] compared []

run_once_idles_unfetched_example : IsIdled (codes "ETHUSDT") okx (run_once deps sources []).1
unfolding fetch_all is_recent_ticket
run_once_idles_unfetched_example =
    run_once_idles_unfetched deps IsIdled (λ s e x. inl refl) (λ s e. IsIn-Lasts (idling s e))
      sources okx [] [] [] (ticket ∷ []) [] ticket
      (λ same x. cc, (λ same x. (codes "timeout", refl), tt))
      (λ x ps e. rw (sym (ok_injective e)) (refl, tt), (λ x ps e. cc, tt)) refl refl (inl refl) refl
      refl

Reach-IsChain_example : IsChain (end_cycle (begin_cycle 0 started))
unfolding started begin_cycle
Reach-IsChain_example =
    Reach-IsChain (
      next (next here (fires 0 started (inl refl))) (returns (begin_cycle 0 started) (omega arith)))

stop_ends_cycles_example :
    ((stop (begin_cycle 0 started)).live ≡ [])
    × ((stop (begin_cycle 0 started)).begun ≡ (begin_cycle 0 started).begun)
unfolding started
stop_ends_cycles_example =
    stop_ends_cycles (begin_cycle 0 started) (stop (begin_cycle 0 started))
      (next here (fires 0 started (inl refl))) here
