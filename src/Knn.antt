-- ===== src/Knn.antt =====
-- src/knn: the neighbours of a signal, their weights and the decision.
pub mod Types
pub mod Decay
pub mod Decision
