-- ===== src/Kms.antt =====
-- crates/kms/src: the parts that the gateway's account classes stand on.
pub mod AccountClass
