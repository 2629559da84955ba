-- ===== src/Daemon/Pipeline/Gated/Orders.antt =====
-- The stages of an entry, from the order back to the first guard.
use combine_trade.Prelude.{
  ℕ, Bool, true, false, List, Option, none, some, Text, Result-cases, ◌≡◌, ◌⊎◌, refl, inl, inr,
  arith, length,
}
use combine_trade.Prelude.Action.{
  ◌>>=◌, when, Action, Then, IsQuiet, ActsOnlyIf, quiet-ActsOnlyIf, widen-ActsOnlyIf,
  >>=-ActsOnlyIf, when-ActsOnlyIf, when_some-ActsOnlyIf, if-ActsOnlyIf,
}
use combine_trade.Core.Types.{
  Direction, Timeframe, VectorTimeframe, DailyBias, long_only, short_only, neutral,
}
use combine_trade.Limits.LossLimit.{LossLimitConfig}
use combine_trade.Positions.Tickets.{ExecutionMode, analysis, alert, live}
use combine_trade.Knn.Types.{KnnConfig, KnnDecision, pass}
use combine_trade.Daemon.Pipeline.{
  Candle, AllIndicators, ActiveSymbol, SymbolState, WatchSession, EvidenceResult, BlockResult,
  daily_bias_mismatch, PipelineDeps, Running,
}
use combine_trade.Daemon.Pipeline.Parts.{
  call, was_blocked, set_blocked, symbol_key, adapter_at, bias_of, bias_mismatch, is_pass,
  safety_state, with_bb4_1h,
}
use combine_trade.Daemon.Pipeline.Entry.{
  within_symbol_limits, by_mode, decide, with_bias, with_evidence, with_sma20_5m, with_session,
  when_unblocked, settle_block, process_entry,
}
use combine_trade.Daemon.Pipeline.Gated.{
  IsKept, Agrees, IsDecided, IsEvident, IsInLimits, IsWithin, IsCleared,
}

module _ {D N A X : Type 0} (deps : PipelineDeps D N A X) (sym : ActiveSymbol)
    (timeframe : VectorTimeframe) where
  open deps use {
    adapters, get_symbol_state, is_trade_blocked, get_active_watch_session, check_evidence,
    make_decision, load_loss_limit_config, check_account_daily_limit, get_balance,
  }

  module _ {O : Type 0} (orders : X → O) (kept : IsKept deps orders) where
    seen : Running X → O
    seen r = orders r.world

    call-IsQuiet : {B : Type 0} (m : Action X B) → IsQuiet orders m → IsQuiet seen (call m)
    unfolding seen call
    call-IsQuiet m q r = q r.world

    -- A collaborator's action that keeps the orders, and what follows it.
    called :
        {B C : Type 0} (m : Action X B) (f : B → Action (Running X) C) (G : B → Running X → Type 0)
        → IsQuiet orders m
        → ((b : B) → ActsOnlyIf seen (G b) (f b))
        → ActsOnlyIf seen (Then (call m) G) (call m >>= f)
    called m f G q k = >>=-ActsOnlyIf seen (call m) f G (call-IsQuiet m q) k

    by_mode-gated :
        (evidence : EvidenceResult D) (session : WatchSession D) (id : Text) (mode : ExecutionMode)
        → ActsOnlyIf seen
            (λ r.
              (mode ≡ live) × ((adapter : A) × (adapter_at sym.exchange adapters ≡ some adapter)))
            (by_mode deps sym timeframe mode evidence session id)
    unfolding by_mode seen
    by_mode-gated evidence session id analysis = record { acts = λ r. inl refl }
    by_mode-gated evidence session id alert = record { acts = λ r. inl refl }
    by_mode-gated evidence session id live =
        widen-ActsOnlyIf seen _ _ _ (λ r (adapter, e, g). (refl, (adapter, e)))
          (when_some-ActsOnlyIf seen (adapter_at sym.exchange adapters) _ (λ adapter r. Unit)
            (λ adapter. record { acts = λ r. inr tt }))

    is_pass-pass : (d : KnnDecision) → is_pass d ≡ true → d ≡ pass
    is_pass-pass d h = ground arith

    bias_mismatch-Agrees :
        (bias : Option DailyBias) (direction : Direction)
        → bias_mismatch bias direction ≡ none
        → Agrees bias direction
    unfolding bias_mismatch
    bias_mismatch-Agrees none direction h = tt
    bias_mismatch-Agrees (some neutral) direction h = tt
    bias_mismatch-Agrees (some long_only) direction h = ground arith
    bias_mismatch-Agrees (some short_only) direction h = ground arith

    decide-gated :
        (evidence : EvidenceResult D) (session : WatchSession D) (v : List N) (knn : KnnConfig)
        (id : Text)
        → ActsOnlyIf seen
            (IsDecided deps sym timeframe evidence v knn)
            (decide deps sym timeframe evidence session v knn id)
    unfolding decide
    decide-gated evidence session v knn id = called _ _ _ (kept.search_kept v _) (λ neighbors.
        called _ _ _ kept.decay_kept (λ decay. called _ _ _ kept.now_kept (λ at.
          called _ _ _ kept.decision_config_kept (λ config.
            widen-ActsOnlyIf seen _ _ _ (λ r (passed, g). (is_pass-pass _ passed, g.0, g.1))
              (when-ActsOnlyIf seen _ _ _
                (by_mode-gated evidence session id sym.execution_mode))))))

    with_bias-gated :
        (evidence : EvidenceResult D) (session : WatchSession D) (v : List N) (knn : KnnConfig)
        (id : Text) (mismatch : Option DailyBias)
        → ActsOnlyIf seen
            (λ r. (mismatch ≡ none) × IsDecided deps sym timeframe evidence v knn r)
            (with_bias deps sym timeframe mismatch evidence session v knn id)
    unfolding with_bias
    with_bias-gated evidence session v knn id none =
        widen-ActsOnlyIf seen _ _ _ (λ r g. (refl, g)) (decide-gated evidence session v knn id)
    with_bias-gated evidence session v knn id (some bias) =
        let event = daily_bias_mismatch sym.symbol sym.exchange timeframe evidence.direction bias in
        quiet-ActsOnlyIf seen _ _ (call-IsQuiet (deps.insert_event event) (kept.event_kept event))

    with_sma20_5m-IsQuiet :
        (t : VectorTimeframe) (indicators : AllIndicators D N)
        → IsQuiet seen (with_sma20_5m deps sym timeframe t indicators)
    unfolding with_sma20_5m call seen ◌>>=◌
    with_sma20_5m-IsQuiet VectorTimeframe.m5 indicators r = refl
    with_sma20_5m-IsQuiet VectorTimeframe.m1 indicators r =
        let m = deps.get_candles sym.symbol sym.exchange Timeframe.m5 25 in
        elim (Result-cases (m r.world).0) [
          | inl (a, e) ↦ rw e (kept.candles_kept sym.symbol sym.exchange Timeframe.m5 25 r.world)
          | inr (a, e) ↦ rw e (kept.candles_kept sym.symbol sym.exchange Timeframe.m5 25 r.world)
        ]

    set_blocked-IsQuiet :
        (b : Bool) → IsQuiet seen (set_blocked (symbol_key sym.symbol sym.exchange) b)
    unfolding set_blocked seen
    set_blocked-IsQuiet b r = refl

    start-IsQuiet :
        (before : Bool) (at : ℕ)
        → IsQuiet seen (when before (call (deps.set_session_start_time at)))
    unfolding seen when
    start-IsQuiet true at = call-IsQuiet (deps.set_session_start_time at) (kept.start_kept at)
    start-IsQuiet false at = λ r. refl

    limits-IsInLimits :
        (state : Option (SymbolState D)) (balance : D) (config : LossLimitConfig D)
        → within_symbol_limits deps sym timeframe state balance config ≡ true
        → IsInLimits deps sym timeframe state balance config
    unfolding within_symbol_limits
    limits-IsInLimits none balance config h = tt
    limits-IsInLimits (some state) balance config h = h

    module _ (candle : Candle D) (candles : List (Candle D)) where
      with_evidence-gated :
          (injected : AllIndicators D N) (state : Option (SymbolState D)) (session : WatchSession D)
          (evidence : EvidenceResult D)
          → ActsOnlyIf seen
              (λ r.
                ((deps.check_safety candle injected
                    (evidence.direction, timeframe)
                    (safety_state state)
                    candles).passed
                  ≡ true)
                × Then
                    (call deps.load_knn_config)
                    (λ knn.
                      Then
                        (call (
                          deps.insert_vector (record {
                            candle_id = candle.id;
                            symbol = sym.symbol;
                            exchange = sym.exchange;
                            timeframe = timeframe;
                            embedding = deps.vectorize candles injected timeframe;
                          })))
                        (λ id r'.
                          Agrees (bias_of state) evidence.direction
                          × IsDecided deps sym timeframe evidence
                              (deps.vectorize candles injected timeframe)
                              knn
                              r'))
                    r)
              (with_evidence deps sym timeframe candle candles injected state session evidence)
      unfolding with_evidence
      with_evidence-gated injected state session evidence = when-ActsOnlyIf seen _ _ _ (
          called _ _ _ kept.knn_config_kept (λ knn. called _ _ _ (kept.vector_kept _) (λ id.
            widen-ActsOnlyIf seen _ _ _
              (λ r (b, g). (bias_mismatch-Agrees (bias_of state) evidence.direction b, g))
              (with_bias-gated evidence session _ knn id _))))

      with_session-gated :
          (indicators : AllIndicators D N) (state : Option (SymbolState D))
          (session : WatchSession D)
          → ActsOnlyIf seen
              (IsEvident deps sym timeframe candle candles indicators state session)
              (with_session deps sym timeframe candle candles indicators state session)
      unfolding with_session with_sma20_5m with_bb4_1h
      with_session-gated indicators state session =
          called _ _ _ (kept.candles_kept _ _ _ _) (λ candles_1h.
            >>=-ActsOnlyIf seen
              (with_sma20_5m deps sym timeframe timeframe
                (with_bb4_1h (length candles_1h) (deps.calc_bb4 candles_1h) indicators))
              _ _ (with_sma20_5m-IsQuiet timeframe _)
              (λ injected.
                widen-ActsOnlyIf seen _ _ _ (λ r (evidence, e, g). (evidence, e, g.0, g.1))
                  (when_some-ActsOnlyIf seen (deps.check_evidence candle injected session) _ _
                    (λ evidence. with_evidence-gated injected state session evidence))))

      when_unblocked-gated :
          (indicators : AllIndicators D N)
          → ActsOnlyIf seen
              (IsWithin deps sym timeframe candle candles indicators)
              (when_unblocked deps sym timeframe candle candles indicators)
      unfolding when_unblocked
      when_unblocked-gated indicators = called _ _ _ (kept.state_kept _ _) (λ state.
          called _ _ _ (kept.balance_kept _) (λ balance. called _ _ _ kept.limits_kept (λ config.
            called _ _ _ (kept.account_kept _ _) (λ account.
              widen-ActsOnlyIf seen _ _ _
                (λ r (allowed, g). (allowed, limits-IsInLimits state balance config g.0, g.1))
                (when-ActsOnlyIf seen _ _ _ (
                  when-ActsOnlyIf seen _ _ _ (
                    called _ _ _ (kept.session_kept _ _) (λ found.
                      when_some-ActsOnlyIf seen _ _ _
                        (λ session. with_session-gated indicators state session)))))))))

      settle_block-gated :
          (block : BlockResult) (before : Bool) (at : ℕ) (next : Action (Running X) (Unit {0}))
          (G : Running X → Type 0)
          → ActsOnlyIf seen G next
          → ActsOnlyIf seen
              (λ r.
                (block.blocked ≡ false)
                × Then
                    (when before (call (deps.set_session_start_time at)))
                    (λ started.
                      Then
                        (set_blocked (symbol_key sym.symbol sym.exchange) false)
                        (λ unblocked. G))
                    r)
              (settle_block deps sym timeframe block before at next)
      unfolding settle_block
      settle_block-gated block before at next G k =
          if-ActsOnlyIf seen _ _ _ _ (set_blocked-IsQuiet true) (
            >>=-ActsOnlyIf seen _ _ _ (start-IsQuiet before at)
              (λ started. >>=-ActsOnlyIf seen _ _ _ (set_blocked-IsQuiet false) (λ unblocked. k)))

      -- Where no collaborator but the entry executor changes the orders, an entry changes them only
      -- when, asked one after the other from the state it starts in: trading is not blocked at the time
      -- that is read, the limits of the account and of the symbol allow a trade, a watch session is
      -- active, the candle with the indicators of then is evidence for it that passes the safety test,
      -- the daily bias agrees, the decision on the neighbours that are found is PASS, the mode is live
      -- and the exchange has an adapter.
      pub process_entry_gated :
          (indicators : AllIndicators D N) (r : Running X)
          → (orders (process_entry deps sym timeframe candle candles indicators r).1.world
              ≡ orders r.world)
            ⊎ IsCleared deps sym timeframe candle candles indicators r
      unfolding process_entry was_blocked seen
      process_entry_gated indicators r = (gated indicators).acts r
        where
          gated :
              (indicators : AllIndicators D N)
              → ActsOnlyIf seen
                  (IsCleared deps sym timeframe candle candles indicators)
                  (process_entry deps sym timeframe candle candles indicators)
          gated indicators = called _ _ _ kept.now_kept (λ at.
              called _ _ _ (kept.blocked_kept at) (λ block.
                >>=-ActsOnlyIf seen _ _ _ (λ r. refl)
                  (λ before.
                    settle_block-gated block before at _ _ (when_unblocked-gated indicators))))
