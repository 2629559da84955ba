-- ===== src/Daemon.antt =====
-- src/daemon: the trading pipeline.
pub mod Pipeline
pub mod Recovery
