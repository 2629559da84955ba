-- ===== src/Filters.antt =====
-- src/filters: trade blocks and the daily bias.
pub mod TradeBlock
pub mod DailyDirection
