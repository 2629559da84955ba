-- ===== src/Lib.antt =====
-- combine-trade, an automated trading system for crypto futures: collectors store candles, filters
-- and gates turn them into signals, a pipeline opens and manages tickets through an exchange
-- adapter, a worker reconciles the positions of the exchange with the tickets, limits stop trading
-- after losses. This library models the part that decides about open money: the life of a ticket
-- and of its market, the sizes, the entry orders, the exits and the trailing stop, the loss limits,
-- the reconciliation, the labels, the transfers, and the pipeline that runs these for every candle.
--
-- Positions/Fsm models src/positions/fsm.ts: the tables of transitions and events and every
-- function over them. Positions/Tickets models src/positions/ticket-manager.ts: the rows of the
-- tables in Positions/Tickets.antt, createTicket, transitionTicket, closeTicket, getActiveTicket
-- and getTicketById in Positions/Tickets/Operations, upsertSymbolState in Upsert, their invariant
-- in Consistency, Opening and Closing. Positions/Sizer models src/positions/sizer.ts. Exits/Checker
-- models src/exits/checker.ts, Exits/Trailing src/exits/trailing.ts, Exits/Manager
-- src/exits/manager.ts: moveSl in Stops, processExit in Close, processTrailing in Trail; the
-- modules beside them prove. Orders/Entry models executeEntry of src/orders/executor.ts, with its
-- steps in Steps, Orders/Slippage the two tests of src/orders/slippage.ts, and Orders/Record
-- recordOrder and the port of src/core/ports.ts that entries and exits call. Limits/LossLimit
-- models src/limits/loss-limit.ts, Reconciliation/Comparator src/reconciliation/comparator.ts,
-- Reconciliation/Worker src/reconciliation/worker.ts (runOnce in Cycle, the timer chain of
-- startReconciliation in Loop), Positions/Pyramid src/positions/pyramid.ts, Labeling/Engine the
-- pure functions of src/labeling/engine.ts, Transfers/Balance src/transfer/balance.ts.
-- Daemon/Pipeline models src/daemon/pipeline.ts: processEntry in Entry, processExits in Exits,
-- process1D, process1H and refreshWatchSessionTp in Sessions, processSymbol and handleCandleClose
-- in Candles; the modules beside them prove. Daemon/Recovery models src/daemon/crash-recovery.ts,
-- with recoverFromCrash in Steps. Signals/Evidence models src/signals/evidence-gate.ts,
-- Signals/Safety src/signals/safety-gate.ts, Signals/Watching the detections of
-- src/signals/watching.ts and Signals/Sessions its rows. Candles/Gaps models src/candles/gap-
-- detection.ts. Filters/TradeBlock models src/filters/trade-block.ts with seedTradeBlocks in Seeds,
-- Filters/DailyDirection src/filters/daily-direction.ts, Knn/Decay src/knn/time-decay.ts,
-- Knn/Decision makeDecision of src/knn/decision.ts, Indicators/Ma src/indicators/ma.ts. Core models
-- src/core/types.ts and src/core/decimal.ts, Core/CommonCode the rows of settings. Prelude holds
-- what the modules share, Tests the test data and the theorems at concrete inputs.
--
-- The parts meet as in the code: the checker's action goes to the manager, which asks the adapter
-- and reports the new state and fields of the ticket; the state machine of Positions/Fsm guards
-- every transition of a ticket; closing a ticket labels its vector by injected functions of the
-- labeling. The pipeline takes its collaborators as one record, as the code does; a theorem about
-- it may put another part of the library behind a field, such as the ticket manager behind
-- createTicket.
--
-- decimal.js is not modelled: Core/Decimal names the operations that the program calls as a record
-- over any type of decimals, and the documented behaviour that theorems use (a total order,
-- monotone operations, halves) as hypotheses. Core/Fixed shows that these can hold: integers in
-- ten-thousandths. A numeric column, or a string that the code turns into a decimal, is that
-- decimal. Texts are lists of code points; times are milliseconds, and natural numbers. The
-- database is a record of lists of rows, and an operation returns the tables as it leaves them. An
-- operation on tickets runs in one transaction, so an error leaves them as they were; row locks
-- have no part in a sequential run. openWatchSession writes one after the other, and only a run in
-- which every write succeeds is modelled. The exchange is any record of functions over a world of
-- its own, with an error as a value. The UTC calendar is a parameter too. Asynchronous code that
-- may throw is a state passed on with a result; steps that the code starts together happen in the
-- order in which it starts them. The only bounded loop is the registration of a stop, with the
-- three attempts of the code; the others are over lists, and the chain of timers of the worker is a
-- step relation. Logging is left out.
--
-- Not modelled: the start and shutdown of the daemon, the collection of candles, bands and other
-- indicators, vectors and the search for neighbours, the economic calendar, the execution of
-- transfers, the loader of settings, backtests, the exchange adapters, notifications, the API and
-- the web client. Of the modelled files: loadLossLimitConfig, loadSlippageConfig,
-- loadKnnDecisionConfig, updateSignalKnnDecision, updateTpPrices, updateMfeMae and finalizeLabel.
pub mod Prelude
pub mod Core
pub mod Positions
pub mod Limits
pub mod Reconciliation
pub mod Orders
pub mod Exits
pub mod Labeling
pub mod Signals
pub mod Candles
pub mod Transfers
pub mod Indicators
pub mod Filters
pub mod Knn
pub mod Daemon
pub mod Tests
