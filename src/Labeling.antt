-- ===== src/Labeling.antt =====
-- src/labeling: the label of a trade and the grade of its vector.
pub mod Engine
