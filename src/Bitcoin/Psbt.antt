-- ===== src/Bitcoin/Psbt.antt =====
-- crates/kms/src/bitcoin/psbt.rs and psbt/: version-0 PSBTs and the signer of P2WPKH inputs.
pub mod Fields
pub mod Der
pub mod Checks
pub mod Pairs
pub mod Spent
pub mod Read
pub mod Sign
pub mod Maps
pub mod RoundTrip
pub mod Putting
pub mod Signing
pub mod Amounts
