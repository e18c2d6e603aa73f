-- ===== src/Crypto/Tests.antt =====
-- The protocols of crates/crypto/src over a small stand-in for the curve.
mod Cyclic
mod Protocols
