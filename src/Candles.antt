-- ===== src/Candles.antt =====
-- candles: the history of a market.
pub mod Gaps
pub mod Missing
