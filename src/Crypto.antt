-- ===== src/Crypto.antt =====
-- crates/crypto/src: the sigma protocols of confidential transfers, over the curve as an interface.
pub mod Scalar
pub mod Curve
pub mod Hash
pub mod Poe
pub mod Poe2
pub mod Elgamal
pub mod Bit
pub mod Range
pub mod Audit
mod Tests
