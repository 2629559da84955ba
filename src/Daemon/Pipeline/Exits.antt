-- ===== src/Daemon/Pipeline/Exits.antt =====
-- processExits of daemon/pipeline.ts. The new excursions and targets that it computes last are not used.
use combine_trade.Prelude.{Bool, true, false, ◌&&◌, none, some}
use combine_trade.Prelude.Action.{Action, pure, ◌>>=◌, ◌>>◌, when, when_some}
use combine_trade.Core.Types.{Timeframe, h1}
use combine_trade.Exits.Checker.{CheckExitInput, ExitAction, ExitActionType, no_exit}
use combine_trade.Exits.Manager.{ExitTicket}
use combine_trade.Daemon.Pipeline.{Candle, Ticket, PipelineDeps}
use combine_trade.Daemon.Pipeline.Parts.{adapter_at}

-- `exitAction.type !== "NONE"`
abbrev pub is_exit : ExitActionType → Bool
is_exit no_exit = false
is_exit _ = true

abbrev pub is_1h : Timeframe → Bool
is_1h h1 = true
is_1h _ = false

module _ {D : Type 0} where
  abbrev pub exit_input : Ticket D → CheckExitInput D
  exit_input t = record {
    state = t.state;
    direction = t.direction;
    entry_price = t.entry_price;
    tp1_price = t.tp1_price;
    tp2_price = t.tp2_price;
    size = t.size;
    remaining_size = t.remaining_size;
    opened_at = t.opened_at;
  }

  -- The id of the stop order is always null.
  abbrev pub exit_ticket : Ticket D → ExitTicket D
  exit_ticket t = record {
    id = t.id;
    symbol = t.symbol;
    exchange = t.exchange;
    direction = t.direction;
    entry_price = t.entry_price;
    size = t.size;
    remaining_size = t.remaining_size;
    trailing_active = t.trailing_active;
    trailing_price = t.trailing_price;
    max_profit = some t.max_profit;
    sl_order_id = none;
  }

module _ {D N A X : Type 0} (deps : PipelineDeps D N A X) (ticket : Ticket D) where
  open deps use {adapters, now, check_exit, process_exit, process_trailing}

  -- The result of the exit is only logged.
  unfoldable pub run_exit : ExitAction D → Action X (Unit {0})
  run_exit action = when (is_exit action.type) (
      when_some (adapter_at ticket.exchange adapters)
        (λ adapter. do result ← process_exit adapter (exit_ticket ticket) action; pure tt))

  unfoldable pub run_trailing : Candle D → Timeframe → Action X (Unit {0})
  run_trailing candle timeframe = when (is_1h timeframe && ticket.trailing_active) (
      when_some (adapter_at ticket.exchange adapters) (λ adapter. do
        result ← process_trailing adapter (exit_ticket ticket) candle.close
        pure tt))

  unfoldable pub process_exits : Candle D → Timeframe → Action X (Unit {0})
  unfolding run_exit run_trailing
  process_exits candle timeframe = do
    at ← now
    run_exit (check_exit (exit_input ticket) candle.close at (some timeframe))
    run_trailing candle timeframe
