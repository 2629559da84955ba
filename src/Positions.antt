-- ===== src/Positions.antt =====
-- src/positions: the ticket and symbol state machines, tickets, sizes and pyramid entries.
pub mod Fsm
pub mod Tickets
pub mod Sizer
pub mod Pyramid
