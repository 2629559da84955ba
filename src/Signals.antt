-- ===== src/Signals.antt =====
-- signals: the gates that a candle passes on its way to an entry.
pub mod Evidence
pub mod Stops
pub mod Safety
pub mod Permissive
pub mod Watching
pub mod Breakout
pub mod Sessions
pub mod Single
