-- ===== src/Bitcoin.antt =====
-- crates/kms/src/bitcoin: transactions, partially signed transactions, addresses and signed messages.
pub mod Parse
pub mod Reader
pub mod Tx
pub mod External
pub mod Keys
pub mod Psbt
pub mod Bech32
pub mod Bip322
mod Tests
