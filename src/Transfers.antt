-- ===== src/Transfers.antt =====
-- src/transfer: what may leave the futures account.
pub mod Balance
