-- ===== src/Core.antt =====
-- src/core: the shared enumerations, the errors that the program throws, and its decimals.
pub mod Types
pub mod CommonCode
pub mod Decimal
pub mod Order
pub mod Fixed
