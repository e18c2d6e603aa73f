-- ===== src/Bitcoin/External.antt =====
-- What the Bitcoin modules take from other crates: hashes, secp256k1, ECDSA and base64, and the
-- target's `usize::MAX`. The values of another crate's types that are only passed on stay abstract.
use krusty_kms.Prelude.{ℕ, Bytes, Bool, Option}

pub record External : Type 1 where
  pub usize_max : ℕ
  -- `sha2`, `bitcoin_hashes`
  pub sha256 : Bytes → Bytes
  pub ripemd160 : Bytes → Bytes
  pub hash160 : Bytes → Bytes
  -- `k256::PublicKey::from_sec1_bytes(bytes).is_ok()`
  pub is_sec1_key : Bytes → Bool
  -- `SigningKey::from_slice`, `verifying_key().to_sec1_point(true)`
  pub SigningKey : Type 0
  pub signing_key : Bytes → Option SigningKey
  pub compressed_key : SigningKey → Bytes
  -- `sign_prehashed_rfc6979(secret, sighash, additional_data)`, then `normalize_s()`
  pub Signature : Type 0
  pub sign_rfc6979 : SigningKey → Bytes → Bytes → Signature
  pub normalize_s : Signature → Signature
  pub to_bytes : Signature → Bytes
  pub to_der : Signature → Bytes
  -- `base64::STANDARD`, over the bytes of the text
  pub base64_decode : Bytes → Option Bytes
  pub base64_encode : Bytes → Bytes
