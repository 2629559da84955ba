-- ===== src/Orders.antt =====
-- src/orders: order rows and the exchange port that orders go through.
pub mod Record
pub mod Slippage
pub mod Entry
