-- ===== src/Tests.antt =====
-- Test data, and the theorems at concrete inputs.
mod Tickets
mod Exits
mod Adapter
mod Sizer
mod Transfers
mod Entry
mod Limits
mod Reconciliation
mod Worker
mod Pyramid
mod Signals
mod Candles
mod Pipeline
mod Filters
mod Recovery
