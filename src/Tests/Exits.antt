-- ===== src/Tests/Exits.antt =====
-- Exits of a long and a short position.
use combine_trade.Prelude.{
  true, false, List, [], ◌∷◌, none, some, codes, All, ◌≡◌, ◌↔◌, refl, arith,
}
use combine_trade.Prelude.Int.{ℤ, pos}
use combine_trade.Core.Types.{initial, long, binance, close_side, CloseReason}
use combine_trade.Core.Decimal.{◌≼◌, nought, sub}
use combine_trade.Core.Fixed.{fixed, fixed-IsOrdered, fixed-IsMonotone, fixed-IsHalving}
use combine_trade.Exits.Checker.{CheckExitInput, MfeMaeResult, ExitAction, tp1, check_exit}
use combine_trade.Exits.Checker.Fires.{Fires, check_exit-Fires}
use combine_trade.Exits.Checker.Sizes.{IsSized, close_size_bounds}
use combine_trade.Exits.Manager.{ExitTicket, TicketUpdates}
use combine_trade.Exits.Manager.Close.{process_exit}
use combine_trade.Exits.Manager.Reducing.{process_exit-kept}
use combine_trade.Exits.Manager.Outcome.{Reported, close_answer, process_exit-Reported}
use combine_trade.Exits.Manager.Unprotected.{process_exit-unprotected}
use combine_trade.Exits.Manager.Trail.{current_trailing_price}
use combine_trade.Exits.Manager.Ratchet.{AtLeastAsSafe, follow, follow-safe}
use combine_trade.Orders.Record.{CreateOrderParams}
use combine_trade.Tests.Adapter.{Sent, taken, taking, refusing}

abbrev position : CheckExitInput ℤ
position = record {
  state = initial;
  direction = long;
  entry_price = pos 1_000_000;
  tp1_price = some (pos 1_100_000);
  tp2_price = none;
  size = pos 30_001;
  remaining_size = pos 30_001;
  opened_at = 1_000;
}

position-IsSized : IsSized position
unfolding fixed
position-IsSized = record { nonneg = refl; whole = λ _. refl }

check_exit-Fires_example :
    ((check_exit position (pos 1_150_000) 5_000 none).type ≡ tp1)
    ↔ Fires tp1 position (pos 1_150_000) 5_000 none
check_exit-Fires_example =
    check_exit-Fires fixed-IsOrdered position (pos 1_150_000) 5_000 none tp1 (ground arith)

close_size_bounds_example :
    let closed_size = (check_exit position (pos 1_150_000) 5_000 none).close_size in
    (nought ≼ closed_size)
    × (closed_size ≼ position.remaining_size)
    × (nought ≼ sub position.remaining_size closed_size)
close_size_bounds_example =
    close_size_bounds fixed-IsOrdered fixed-IsMonotone fixed-IsHalving position (pos 1_150_000)
      5_000 none position-IsSized

abbrev start : MfeMaeResult ℤ
start = record { mfe = pos 0; mae = pos 0 }

abbrev closes : List ℤ
closes = pos 1_010_000 ∷ pos 980_000 ∷ pos 1_050_000 ∷ []

abbrev ticket : ExitTicket ℤ
ticket = record {
  id = codes "ticket";
  symbol = codes "BTCUSDT";
  exchange = binance;
  direction = long;
  entry_price = pos 1_000_000;
  size = pos 30_000;
  remaining_size = pos 30_000;
  trailing_active = true;
  trailing_price = none;
  max_profit = none;
  sl_order_id = some (codes "stop");
}

abbrev first_target : ExitAction ℤ
first_target = record { type = tp1; close_size = pos 15_000; close_reason = some CloseReason.tp1 }

abbrev OnlyCloses : Sent → Type 0
OnlyCloses = All (λ (o : CreateOrderParams ℤ). (o.reduce_only ≡ true) × (o.side ≡ close_side long))

process_exit-kept_example : OnlyCloses (process_exit taking ticket first_target binance true []).1
process_exit-kept_example =
    process_exit-kept taking OnlyCloses ticket
      (record {
        creates = λ o x r s d p. ((r, d), p);
        edits = λ id price x s p. p;
        cancels = λ id x s p. p;
        uuids = λ x p. p;
      })
      first_target binance true [] tt

process_exit-Reported_example :
    Reported taking ticket first_target
      (close_answer taking ticket first_target [])
      (process_exit taking ticket first_target binance false []).0
process_exit-Reported_example =
    process_exit-Reported taking ticket first_target binance false [] (ground arith)

process_exit-unprotected_example :
    let r = (process_exit refusing ticket first_target binance true []).0 in
    (r.success ≡ true)
    × (r.sl_order ≡ none)
    × ((u : TicketUpdates ℤ) × (r.ticket_updates ≡ some u)
        × (u.current_sl_price ≡ some (pos 1_000_000)))
process_exit-unprotected_example =
    process_exit-unprotected refusing ticket first_target
      (record {
        takes = λ x. (taken, refl);
        no_edit = λ id price x. (codes "no edits", refl);
        no_stop = λ price x. (codes "no stop orders", refl);
      })
      binance true [] refl

follow-safe_example :
    AtLeastAsSafe long
      (pos 1_000_000)
      (current_trailing_price (follow taking binance true ticket closes []).0)
follow-safe_example = follow-safe taking binance true fixed-IsOrdered ticket closes []
