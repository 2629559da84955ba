-- ===== src/Indicators.antt =====
-- src/indicators: the moving averages.
pub mod Ma
