-- ===== src/Orders/Entry/Protected.antt =====
-- What an entry leaves on the exchange.
use combine_trade.Prelude.{
  ℕ, zero, suc, ◌-◌, Bool, true, false, Option, none, some, Text, Result, ok, err, ltb, ◌≡◌, ◌⊎◌,
  inl, inr, refl, Bool-cases, Result-cases, arith,
}
use combine_trade.Prelude.State.{State}
use combine_trade.Core.Types.{Error}
use combine_trade.Core.Decimal.{Decimal, is_zero}
use combine_trade.Orders.Record.{Adapter, OrderResult, NewOrderRow}
use combine_trade.Orders.Slippage.{check_slippage, SlippageResult, SpreadCheckResult}
use combine_trade.Orders.Entry.{
  ExecuteEntryParams, ExecuteEntryResult, SpreadCheckConfig, SlRegistration, AbortReason,
  registered, timed_out, not_registered, bracket_order, plain_order, stop_order, panic_order,
  sl_timeout, sl_retries, slippage_exceeded, sl_timeout_ms, sl_max_retries, is_live,
}
use combine_trade.Orders.Entry.Steps.{
  emergency_close, settle_attempt, attempt_sl_registration, settle_bracket, place_entry,
  abort_after_entry, settle_registration, register_sl, settle_slippage, check_fill, settle_entry,
  settle_leverage, enter, settle_spread, guard_spread, execute_entry,
}

module _ {D X : Type 0} where
  -- One predicate for an order that was taken, another for one that was refused.
  abbrev pub After : (X → Type 0) → (X → Type 0) → Result Text (OrderResult D) × X → Type 0
  After taken refused (ok r, x) = taken x
  After taken refused (err m, x) = refused x

  module _ ⦃dec : Decimal D⦄ (adapter : Adapter D X) where
    open adapter use {create_order, random_uuid, set_leverage, now}

    -- Identifiers, the clock and the leverage move no position.
    pub record IsKept (Q : X → Type 0) : Type 0 where
      pub uuids : (x : X) → Q x → Q (random_uuid x).1
      pub times : (x : X) → Q x → Q (now x).1
      pub leverages : (n : ℕ) (symbol : Text) (x : X) → Q x → Q (set_leverage n symbol x).1

    -- What the orders of an entry make of the position of its symbol, where `Flat` says that there is
    -- none, `Naked` that there is one without a stop, `Covered` that there is one with a stop order
    -- and `Bracketed` whatever an order with a stop price leaves, with a stop or not. A refused order
    -- has no effect, and the reduce-only close at the market is always taken.
    pub record IsExchange (p : ExecuteEntryParams D) (Flat Naked Covered Bracketed : X → Type 0)
        : Type 0 where
      pub flat_kept : IsKept Flat
      pub naked_kept : IsKept Naked
      pub covered_kept : IsKept Covered
      pub bracketed_kept : IsKept Bracketed
      pub brackets : (x : X) → Flat x → After Bracketed Flat (create_order (bracket_order p) x)
      pub entries : (x : X) → Flat x → After Naked Flat (create_order (plain_order p) x)
      pub stops : (x : X) → Naked x → After Covered Naked (create_order (stop_order p) x)
      pub naked_closes : (x : X) → Naked x → Flat (create_order (panic_order p) x).1
      pub bracketed_closes : (x : X) → Bracketed x → Flat (create_order (panic_order p) x).1

    module _ (p : ExecuteEntryParams D) (Flat Naked Covered Bracketed : X → Type 0)
        (rules : IsExchange p Flat Naked Covered Bracketed) where
      open rules use {
        flat_kept, naked_kept, covered_kept, bracketed_kept, brackets, entries, stops, naked_closes,
        bracketed_closes,
      }

      -- What an order with a stop price left, where the exchange is configured for one.
      abbrev pub LeftByBracket : X → Type 0
      LeftByBracket x = (p.supports_one_step_order ≡ true) × Bracketed x

      -- A success reports a stop and leaves a position that a stop order covers, or the one of an order
      -- with a stop price; anything else leaves no position.
      abbrev pub Settled : Result Error (ExecuteEntryResult D) × X → Type 0
      Settled (err e, x) = Flat x
      Settled (ok r, x) =
          ((r.success ≡ true)
            × ((row : NewOrderRow D) × (r.sl_order ≡ some row))
            × (Covered x ⊎ LeftByBracket x))
          ⊎ ((r.success ≡ false) × (r.sl_order ≡ none) × Flat x)

      -- A position that is open.
      abbrev Held : Bool → X → Type 0
      Held true = LeftByBracket
      Held false = Naked

      abort_after_entry-Settled :
          (bracket : Bool) (intent_id : Text) (row : NewOrderRow D) (reason : AbortReason D) (x : X)
          → Held bracket x
          → Settled (abort_after_entry adapter p intent_id row reason x)
      unfolding abort_after_entry emergency_close
      abort_after_entry-Settled true intent_id row reason x h =
          inr (refl, refl, bracketed_closes _ (bracketed_kept.uuids x h.1))
      abort_after_entry-Settled false intent_id row reason x h =
          inr (refl, refl, naked_closes _ (naked_kept.uuids x h))

      abbrev AfterAttempts : SlRegistration D × X → Type 0
      AfterAttempts (registered r, x) = Covered x
      AfterAttempts (timed_out, x) = Naked x
      AfterAttempts (not_registered, x) = Naked x

      settle_attempt-After :
          (start : ℕ) (retry : State X (SlRegistration D)) (a : Result Text (OrderResult D)) (x : X)
          → ((y : X) → Naked y → AfterAttempts (retry y))
          → After Covered Naked (a, x)
          → AfterAttempts (settle_attempt adapter start retry a x)
      unfolding settle_attempt
      settle_attempt-After start retry (ok r) x k h = h
      settle_attempt-After start retry (err m) x k h =
          elim (Bool-cases (ltb sl_timeout_ms ((now x).0 - start))) [
            | inl e ↦ rw e (naked_kept.times x h)
            | inr e ↦ rw e (k _ (naked_kept.times x h))
          ]

      attempts-After :
          (left start : ℕ) (x : X)
          → Naked x
          → AfterAttempts (attempt_sl_registration adapter left p start x)
      unfolding attempt_sl_registration
      attempts-After zero start x h = h
      attempts-After (suc left) start x h =
          elim (Bool-cases (ltb sl_timeout_ms ((now x).0 - start))) [
            | inl e ↦ rw e (naked_kept.times x h)
            | inr e ↦ rw e (
                settle_attempt-After start (attempt_sl_registration adapter left p start)
                  (create_order (stop_order p) (now x).1).0
                  (create_order (stop_order p) (now x).1).1 (attempts-After left start)
                  (stops _ (naked_kept.times x h)))
          ]

      settle_registration-Settled :
          (intent_id : Text) (row : NewOrderRow D) (a : SlRegistration D) (x : X)
          → AfterAttempts (a, x)
          → Settled (settle_registration adapter p intent_id row a x)
      unfolding settle_registration
      settle_registration-Settled intent_id row (registered r) x h =
          inl (refl, (_, refl), inl (covered_kept.uuids x h))
      settle_registration-Settled intent_id row timed_out x h =
          abort_after_entry-Settled false intent_id row sl_timeout x h
      settle_registration-Settled intent_id row not_registered x h =
          abort_after_entry-Settled false intent_id row sl_retries x h

      register_sl-Settled :
          (bracket : Bool) (intent_id : Text) (row : NewOrderRow D) (time : ℕ) (x : X)
          → Held bracket x
          → Settled (register_sl adapter bracket p intent_id row time x)
      unfolding register_sl
      register_sl-Settled true intent_id row time x (one_step, h) =
          inl (refl, (_, refl), inr (one_step, bracketed_kept.uuids x h))
      register_sl-Settled false intent_id row time x h =
          settle_registration-Settled intent_id row _ _ (attempts-After sl_max_retries time x h)

      module _ (priced : is_zero p.entry_price ≡ false) where
        check_slippage-total :
            (price : D) (e : Error)
            → ¬ (check_slippage p.entry_price price p.max_slippage_pct ≡ err e)
        unfolding check_slippage
        check_slippage-total price e h = ground arith

        settle_slippage-Settled :
            (bracket : Bool) (intent_id : Text) (row : NewOrderRow D) (time : ℕ)
            (s : SlippageResult D) (x : X)
            → Held bracket x
            → Settled (settle_slippage adapter bracket p intent_id row time (ok s) x)
        unfolding settle_slippage
        settle_slippage-Settled bracket intent_id row time s x h = elim (Bool-cases s.passed) [
          | inl e ↦ rw e (register_sl-Settled bracket intent_id row time x h)
          | inr e ↦ rw e (
              abort_after_entry-Settled bracket intent_id row
                (slippage_exceeded s.slippage_pct p.max_slippage_pct) x h)
        ]

        check_fill-Settled :
            (bracket : Bool) (intent_id : Text) (row : NewOrderRow D) (time : ℕ) (price : Option D)
            (x : X)
            → Held bracket x
            → Settled (check_fill adapter bracket p intent_id row time price x)
        unfolding check_fill
        check_fill-Settled bracket intent_id row time none x h =
            register_sl-Settled bracket intent_id row time x h
        check_fill-Settled bracket intent_id row time (some price) x h =
            elim (Result-cases (check_slippage p.entry_price price p.max_slippage_pct)) [
              | inl (s, e) ↦ rw e (settle_slippage-Settled bracket intent_id row time s x h)
              | inr (thrown, e) ↦ absurd (check_slippage-total price thrown e)
            ]

        settle_entry-Settled :
            (bracket : Bool) (intent_id : Text) (a : Result Text (OrderResult D)) (x : X)
            → After (Held bracket) Flat (a, x)
            → Settled (settle_entry adapter p intent_id (bracket, a) x)
        unfolding settle_entry
        settle_entry-Settled bracket intent_id (err m) x h = inr (refl, refl, flat_kept.uuids x h)
        settle_entry-Settled true intent_id (ok r) x h =
            check_fill-Settled true intent_id _ (now x).0 r.filled_price _
              (h.0, bracketed_kept.uuids _ (bracketed_kept.times x h.1))
        settle_entry-Settled false intent_id (ok r) x h =
            check_fill-Settled false intent_id _ (now x).0 r.filled_price _
              (naked_kept.uuids _ (naked_kept.times x h))

        abbrev AfterPlaced : (Bool × Result Text (OrderResult D)) × X → Type 0
        AfterPlaced ((bracket, a), x) = After (Held bracket) Flat (a, x)

        settle_bracket-After :
            (a : Result Text (OrderResult D)) (x : X)
            → p.supports_one_step_order ≡ true
            → After Bracketed Flat (a, x)
            → AfterPlaced (settle_bracket adapter p a x)
        unfolding settle_bracket
        settle_bracket-After (ok r) x e h = (e, h)
        settle_bracket-After (err m) x e h = entries x h

        place_entry-After : (x : X) → Flat x → AfterPlaced (place_entry adapter p x)
        unfolding place_entry
        place_entry-After x h = elim (Bool-cases p.supports_one_step_order) [
          | inl e ↦ rw e (settle_bracket-After _ _ e (brackets x h))
          | inr e ↦ rw e (entries x h)
        ]

        settle_leverage-Settled :
            (intent_id : Text) (a : Result Text (Unit {0})) (x : X)
            → Flat x
            → Settled (settle_leverage adapter p intent_id a x)
        unfolding settle_leverage
        settle_leverage-Settled intent_id (err m) x h = h
        settle_leverage-Settled intent_id (ok done) x h =
            settle_entry-Settled _ intent_id _ _ (place_entry-After x h)

        enter-Settled : (intent_id : Text) (x : X) → Flat x → Settled (enter adapter p intent_id x)
        unfolding enter
        enter-Settled intent_id x h =
            settle_leverage-Settled intent_id _ _ (flat_kept.leverages p.leverage p.symbol x h)

        settle_spread-Settled :
            (intent_id : Text) (limit : D) (s : Result Error (SpreadCheckResult D)) (x : X)
            → Flat x
            → Settled (settle_spread adapter p intent_id limit s x)
        unfolding settle_spread
        settle_spread-Settled intent_id limit (err e) x h = h
        settle_spread-Settled intent_id limit (ok s) x h = elim (Bool-cases s.passed) [
          | inl e ↦ rw e (enter-Settled intent_id x h)
          | inr e ↦ rw e (inr (refl, refl, h))
        ]

        guard_spread-Settled :
            (c : Option (SpreadCheckConfig D)) (intent_id : Text) (x : X)
            → Flat x
            → Settled (guard_spread adapter c p intent_id x)
        unfolding guard_spread
        guard_spread-Settled none intent_id x h = enter-Settled intent_id x h
        guard_spread-Settled (some c) intent_id x h = settle_spread-Settled intent_id _ _ x h

        -- From no position, with a price that is not zero, where a refused order has no effect, an order
        -- that is taken does what it says and the exchange takes the emergency close: an entry that is
        -- aborted or throws leaves no position, and one that succeeds reports a stop and leaves a
        -- position that a stop order covers, or, only where the exchange is configured for one-step
        -- orders, whatever position the order with a stop price left, be it with a stop or without.
        pub execute_entry-Settled : (x : X) → Flat x → Settled (execute_entry adapter p x)
        unfolding execute_entry
        execute_entry-Settled x h = elim (Bool-cases (is_live p.mode)) [
          | inl e ↦ rw e (guard_spread-Settled p.spread_check _ _ (flat_kept.uuids x h))
          | inr e ↦ rw e h
        ]
