-- ===== src/Common.antt =====
-- crates/common: the error type and results that the other crates share, fee ceilings and amounts.
pub mod Error
pub mod Fee
pub mod Decimal
pub mod Amount
mod Tests
