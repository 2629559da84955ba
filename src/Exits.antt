-- ===== src/Exits.antt =====
-- src/exits: which exit fires, the trailing stop, and the orders that carry an exit out.
pub mod Checker
pub mod Trailing
pub mod Manager
