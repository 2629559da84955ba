-- ===== src/Reconciliation.antt =====
-- src/reconciliation: the positions of the exchanges against the tickets.
pub mod Comparator
pub mod Worker
