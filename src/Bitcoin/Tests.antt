-- ===== src/Bitcoin/Tests.antt =====
-- Concrete transactions, PSBTs and external functions, and the theorems applied to them.
pub mod Data
mod Transactions
mod Psbts
mod Messages
