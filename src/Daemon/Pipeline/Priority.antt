-- ===== src/Daemon/Pipeline/Priority.antt =====
-- 1M candles come before 5M candles, and symbols do not disturb each other.
use combine_trade.Prelude.{
  ℕ, ◌+◌, ◌<◌, Bool, true, false, List, [], ◌∷◌, Option, none, some, Text, eq_text, eq_text_refl,
  ok, ◌≡◌, ◌∙◌, ap, refl, lt→ltb, Bool-cases, inl, inr,
}
use combine_trade.Prelude.Action.{
  Action, ◌>>=◌, ◌>>◌, when, IsQuiet, >>=-IsQuiet, when-IsQuiet, when_some-IsQuiet,
}
use combine_trade.Core.Types.{Timeframe, VectorTimeframe, DailyBias}
use combine_trade.Core.Decimal.{Decimal}
use combine_trade.Knn.Types.{KnnConfig}
use combine_trade.Positions.Tickets.{ExecutionMode, analysis, alert, live}
use combine_trade.Daemon.Pipeline.{
  Candle, AllIndicators, ActiveSymbol, SymbolState, WatchSession, EvidenceResult, BlockResult,
  daily_bias_mismatch, PipelineDeps, Running,
}
use combine_trade.Daemon.Pipeline.Parts.{
  call, symbol_key, get_key, set_key, set_blocked, was_blocked, ticket_params,
}
use combine_trade.Daemon.Pipeline.Entry.{
  place_order, by_mode, decide, with_bias, with_evidence, with_sma20_5m, with_session,
  when_unblocked, settle_block, process_entry,
}
use combine_trade.Daemon.Pipeline.Candles.{
  recent_1m_ttl_ms, mark_1m_fired, was_1m_fired_recently, fired_within, process_timeframe,
  process_symbol, process_all, handle_candle_close,
}

get_key-set_key :
    {A : Type 0} (key : Text) (a : A) (entries : List (Text × A))
    → get_key key (set_key key a entries) ≡ some a
get_key-set_key key a [] = rw (eq_text_refl key) refl
get_key-set_key key a ((k, b) ∷ entries) = elim (Bool-cases (eq_text k key)) [
  | inl e ↦ rw (e, e) refl
  | inr e ↦ rw (e, e) (get_key-set_key key a entries)
]

marks : {X : Type 0} → Running X → List (Text × ℕ)
marks r = r.recent_1m_fired

call-IsQuiet : {X B : Type 0} (m : Action X B) → IsQuiet marks (call m)
unfolding call marks
call-IsQuiet m r = refl

set_blocked-IsQuiet :
    {X : Type 0} (key : Text) (b : Bool) → IsQuiet (marks {X = X}) (set_blocked key b)
unfolding set_blocked marks
set_blocked-IsQuiet key b r = refl

-- An entry leaves the marks of 1M candles alone.
module _ {D N A X : Type 0} (deps : PipelineDeps D N A X) (sym : ActiveSymbol)
    (timeframe : VectorTimeframe) where
  called :
      {B C : Type 0} (m : Action X B) (f : B → Action (Running X) C)
      → ((b : B) → IsQuiet marks (f b))
      → IsQuiet marks (call m >>= f)
  called m f k = >>=-IsQuiet marks (call m) f (call-IsQuiet m) k

  by_mode-IsQuiet :
      (mode : ExecutionMode) (evidence : EvidenceResult D) (session : WatchSession D) (id : Text)
      → IsQuiet marks (by_mode deps sym timeframe mode evidence session id)
  unfolding by_mode place_order
  by_mode-IsQuiet analysis evidence session id r = refl
  by_mode-IsQuiet alert evidence session id r = refl
  by_mode-IsQuiet live evidence session id r =
      when_some-IsQuiet marks _ _
        (λ adapter. called _ _ (λ sized. called _ _ (λ slippage. called _ _ (λ entry.
          when-IsQuiet marks _ _ (
            call-IsQuiet (
              deps.create_ticket (ticket_params sym timeframe evidence session sized id entry)))))))
        r

  with_bias-IsQuiet :
      (mismatch : Option DailyBias) (evidence : EvidenceResult D) (session : WatchSession D)
      (v : List N) (knn : KnnConfig) (id : Text)
      → IsQuiet marks (with_bias deps sym timeframe mismatch evidence session v knn id)
  unfolding with_bias decide
  with_bias-IsQuiet (some bias) evidence session v knn id = call-IsQuiet (
      deps.insert_event
        (daily_bias_mismatch sym.symbol sym.exchange timeframe evidence.direction bias))
  with_bias-IsQuiet none evidence session v knn id = called _ _ (λ neighbors. called _ _ (λ decay.
      called _ _ (λ at. called _ _ (λ config.
        when-IsQuiet marks _ _ (by_mode-IsQuiet sym.execution_mode evidence session id)))))

  with_sma20_5m-IsQuiet :
      (t : VectorTimeframe) (indicators : AllIndicators D N)
      → IsQuiet marks (with_sma20_5m deps sym timeframe t indicators)
  unfolding with_sma20_5m
  with_sma20_5m-IsQuiet VectorTimeframe.m5 indicators r = refl
  with_sma20_5m-IsQuiet VectorTimeframe.m1 indicators r = called _ _ (λ candles r. refl) r

  with_session-IsQuiet :
      (candle : Candle D) (candles : List (Candle D)) (indicators : AllIndicators D N)
      (state : Option (SymbolState D)) (session : WatchSession D)
      → IsQuiet marks (with_session deps sym timeframe candle candles indicators state session)
  unfolding with_session with_evidence
  with_session-IsQuiet candle candles indicators state session = called _ _ (λ candles_1h.
      >>=-IsQuiet marks _ _ (with_sma20_5m-IsQuiet timeframe _) (λ injected.
        when_some-IsQuiet marks _ _ (λ evidence.
          when-IsQuiet marks _ _ (
            called _ _ (λ knn. called _ _ (λ id. with_bias-IsQuiet _ evidence session _ knn id))))))

  settle_block-IsQuiet :
      (block : BlockResult) (before : Bool) (at : ℕ) (next : Action (Running X) (Unit {0}))
      → IsQuiet marks next
      → IsQuiet marks (settle_block deps sym timeframe block before at next)
  unfolding settle_block
  settle_block-IsQuiet block before at next q = elim (Bool-cases block.blocked) [
    | inl e ↦ rw e (set_blocked-IsQuiet (symbol_key sym.symbol sym.exchange) true)
    | inr e ↦ rw e (
        >>=-IsQuiet marks _ _
          (when-IsQuiet marks before _ (call-IsQuiet (deps.set_session_start_time at)))
          (λ started.
            >>=-IsQuiet marks _ _ (set_blocked-IsQuiet (symbol_key sym.symbol sym.exchange) false)
              (λ unblocked. q)))
  ]

  process_entry-IsQuiet :
      (candle : Candle D) (candles : List (Candle D)) (indicators : AllIndicators D N)
      → IsQuiet marks (process_entry deps sym timeframe candle candles indicators)
  unfolding process_entry when_unblocked was_blocked
  process_entry-IsQuiet candle candles indicators = called _ _ (λ at. called _ _ (λ block.
      >>=-IsQuiet marks _ _ (λ r. refl)
        (λ before. settle_block-IsQuiet block before at _ (
          called _ _ (λ state. called _ _ (λ balance. called _ _ (λ config. called _ _ (λ account.
            when-IsQuiet marks _ _ (
              when-IsQuiet marks _ _ (
                called _ _ (λ found. when_some-IsQuiet marks _ _ (λ session.
                  with_session-IsQuiet candle candles indicators state session))))))))))))

module _ {D N A X : Type 0} ⦃dec : Decimal D⦄ (deps : PipelineDeps D N A X) where
  -- A 1M candle leaves the mark of its market and its time, whatever becomes of its entry.
  process_timeframe-marks :
      (candle : Candle D) (indicators : AllIndicators D N) (candles : List (Candle D))
      (sym : ActiveSymbol) (r : Running X) (fired : ℕ) (x : X)
      → deps.now r.world ≡ (ok fired, x)
      → marks (process_timeframe deps candle Timeframe.m1 indicators candles sym r).1
        ≡ set_key (symbol_key sym.symbol sym.exchange) fired r.recent_1m_fired
  unfolding process_timeframe mark_1m_fired call ◌>>=◌ ◌>>◌ marks
  process_timeframe-marks candle indicators candles sym r fired x clock =
      rw clock (process_entry-IsQuiet deps sym VectorTimeframe.m1 candle candles indicators _)

  -- After the processing of a 1M candle of a market, whatever became of its entry, a 5M candle of the
  -- market within a minute of it attempts no entry: only the clock is read.
  pub process_timeframe_prioritized :
      (candle_1m candle_5m : Candle D) (indicators_1m indicators_5m : AllIndicators D N)
      (candles_1m candles_5m : List (Candle D)) (sym : ActiveSymbol) (r r' : Running X)
      (fired at : ℕ) (x x' : X)
      → deps.now r.world ≡ (ok fired, x)
      → r' ≡ (process_timeframe deps candle_1m Timeframe.m1 indicators_1m candles_1m sym r).1
      → deps.now r'.world ≡ (ok at, x')
      → at < fired + recent_1m_ttl_ms
      → process_timeframe deps candle_5m Timeframe.m5 indicators_5m candles_5m sym r'
        ≡ (ok tt, record r' { world = x' })
  unfolding process_timeframe was_1m_fired_recently call ◌>>=◌ when fired_within marks
  process_timeframe_prioritized candle_1m candle_5m indicators_1m indicators_5m candles_1m
        candles_5m sym r r' fired at x x' first processed second recent =
      let marked : marks r' ≡ set_key (symbol_key sym.symbol sym.exchange) fired r.recent_1m_fired =
        ap marks processed
        ∙ process_timeframe-marks candle_1m indicators_1m candles_1m sym r fired x first in
      rw
        (
          second,
          marked,
          get_key-set_key (symbol_key sym.symbol sym.exchange) fired r.recent_1m_fired,
          lt→ltb at (fired + recent_1m_ttl_ms) recent,
        )
        refl

  process_all-ok :
      (candle : Candle D) (timeframe : Timeframe) (syms : List ActiveSymbol) (r : Running X)
      → (process_all deps candle timeframe syms r).0 ≡ ok tt
  unfolding process_all ◌>>=◌
  process_all-ok candle timeframe [] r = refl
  process_all-ok candle timeframe (sym ∷ syms) r =
      process_all-ok candle timeframe syms (process_symbol deps candle timeframe sym r).1

  -- Whatever the collaborators throw, the handler of a candle returns.
  pub handle_candle_close-returns :
      (candle : Candle D) (timeframe : Timeframe) (syms : List ActiveSymbol) (r : Running X)
      → (handle_candle_close deps candle timeframe syms r).0 ≡ ok tt
  unfolding handle_candle_close
  handle_candle_close-returns candle timeframe syms r = process_all-ok candle timeframe _ r
