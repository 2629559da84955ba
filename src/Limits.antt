-- ===== src/Limits.antt =====
-- src/limits: the loss limits of a symbol and of the account.
pub mod LossLimit
