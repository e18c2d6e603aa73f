-- ===== src/Domain.antt =====
-- crates/domain: the types of requests, results and tracked operations. A text is its bytes; a
-- `FeltHex` is the field element that its canonical text writes, a `HexBytes` the bytes.
pub mod Error
pub mod Account
pub mod Runtime
pub mod Signing
