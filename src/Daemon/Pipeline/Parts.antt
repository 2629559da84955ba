-- ===== src/Daemon/Pipeline/Parts.antt =====
-- The small parts of daemon/pipeline.ts: the two maps, adapters, what the daily bias says, and the
-- parameters of the order and of the ticket.
use combine_trade.Prelude.{
  ℕ, Bool, true, false, List, [], ◌∷◌, ◌++◌, Option, none, some, Text, codes, eq_text,
  if◌then◌else◌, leb,
}
use combine_trade.Prelude.Action.{Action, pure}
use combine_trade.Core.Types.{
  Exchange, eq_exchange, Direction, long, short, eq_direction, VectorTimeframe, DailyBias,
  long_only, short_only, neutral,
}
use combine_trade.Reconciliation.Comparator.{exchange_name}
use combine_trade.Limits.LossLimit.{SymbolLossState}
use combine_trade.Positions.Tickets.{CreateTicketParams}
use combine_trade.Orders.Entry.{ExecuteEntryParams, ExecuteEntryResult}
use combine_trade.Orders.Record.{NewOrderRow}
use combine_trade.Knn.Types.{KnnDecision, pass, fail, skip}
use combine_trade.Daemon.Pipeline.{
  AllIndicators, ActiveSymbol, SymbolState, WatchSession, EvidenceResult, EntrySize,
  SafetySymbolState, Running, BollingerResult,
}

unfoldable pub symbol_key : Text → Exchange → Text
symbol_key symbol exchange = symbol ++ (codes "@" ++ exchange_name exchange)

-- Map.prototype.get and set.
abbrev pub get_key {ℓ} : {A : Type ℓ} → Text → List (Text × A) → Option A
get_key key [] = none
get_key key ((k, a) ∷ entries) = if eq_text k key then some a else get_key key entries

abbrev pub set_key {ℓ} : {A : Type ℓ} → Text → A → List (Text × A) → List (Text × A)
set_key key a [] = (key, a) ∷ []
set_key key a ((k, b) ∷ entries) =
    if eq_text k key then (k, a) ∷ entries else (k, b) ∷ set_key key a entries

abbrev pub or_false : Option Bool → Bool
or_false none = false
or_false (some b) = b

abbrev pub adapter_at {ℓ} : {A : Type ℓ} → Exchange → List (Exchange × A) → Option A
adapter_at exchange [] = none
adapter_at exchange ((e, a) ∷ entries) =
    if eq_exchange e exchange then some a else adapter_at exchange entries

-- An action of a collaborator, on the world alone.
unfoldable pub call : {X B : Type 0} → Action X B → Action (Running X) B
call m r = let (answer, x) = m r.world in (answer, record r { world = x })

unfoldable pub was_blocked : {X : Type 0} → Text → Action (Running X) Bool
was_blocked key = λ r. pure (or_false (get_key key r.previously_blocked)) r

unfoldable pub set_blocked : {X : Type 0} → Text → Bool → Action (Running X) (Unit {0})
set_blocked key b =
    λ r. pure tt (record r { previously_blocked = set_key key b r.previously_blocked })

-- `dailyBias !== null && dailyBias !== "NEUTRAL"` and the directions differ.
unfoldable pub bias_mismatch : Option DailyBias → Direction → Option DailyBias
bias_mismatch none direction = none
bias_mismatch (some neutral) direction = none
bias_mismatch (some long_only) direction =
    if eq_direction direction long then none else some long_only
bias_mismatch (some short_only) direction =
    if eq_direction direction short then none else some short_only

abbrev pub is_pass : KnnDecision → Bool
is_pass pass = true
is_pass fail = false
is_pass skip = false

abbrev pub bias_of : {D : Type 0} → Option (SymbolState D) → Option DailyBias
bias_of none = none
bias_of (some state) = state.daily_bias

module _ {D : Type 0} where
  abbrev pub loss_state : SymbolState D → SymbolLossState D
  loss_state state = record {
    losses_today = state.losses_today;
    losses_session = state.losses_session;
    losses_this_hour_5m = state.losses_this_1h_5m;
    losses_this_hour_1m = state.losses_this_1h_1m;
  }

  abbrev pub safety_state : Option (SymbolState D) → SafetySymbolState D
  safety_state none = record { session_box_high = none; session_box_low = none; daily_bias = none }
  safety_state (some state) = record {
    session_box_high = state.session_box_high;
    session_box_low = state.session_box_low;
    daily_bias = state.daily_bias;
  }

  filled_or_evidence : Option (NewOrderRow D) → D → D
  filled_or_evidence none price = price
  filled_or_evidence (some order) price = elim order.filled_price [
    | none ↦ price
    | some filled ↦ filled
  ]

  unfoldable pub entry_params :
      ActiveSymbol → EvidenceResult D → EntrySize D → D → ExecuteEntryParams D
  entry_params sym evidence sized slippage = record {
    symbol = sym.symbol;
    exchange = sym.exchange;
    mode = sym.execution_mode;
    direction = evidence.direction;
    entry_price = evidence.entry_price;
    sl_price = evidence.sl_price;
    size = sized.size;
    leverage = sized.leverage;
    max_slippage_pct = slippage;
    spread_check = none;
    supports_one_step_order = false;
  }

  unfoldable pub ticket_params :
      ActiveSymbol
      → VectorTimeframe
      → EvidenceResult D
      → WatchSession D
      → EntrySize D
      → Text
      → ExecuteEntryResult D
      → CreateTicketParams D
  unfolding filled_or_evidence
  ticket_params sym timeframe evidence session sized vector_id entry = record {
    symbol = sym.symbol;
    exchange = sym.exchange;
    signal_id = vector_id;
    timeframe = timeframe;
    direction = evidence.direction;
    entry_price = filled_or_evidence entry.entry_order evidence.entry_price;
    sl_price = evidence.sl_price;
    size = sized.size;
    leverage = sized.leverage;
    tp1_price = session.tp1_price;
    tp2_price = session.tp2_price;
  }

module _ {D N : Type 0} where
  -- The 1H bands are set where there are four candles and bands.
  unfoldable pub with_bb4_1h :
      ℕ → Option (BollingerResult D) → AllIndicators D N → AllIndicators D N
  with_bb4_1h candles none indicators = indicators
  with_bb4_1h candles (some bands) indicators =
      if leb 4 candles then record indicators { bb4_1h = some bands } else indicators
