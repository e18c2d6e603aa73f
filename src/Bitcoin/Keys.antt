-- ===== src/Bitcoin/Keys.antt =====
-- crates/kms/src/bitcoin/keys.rs: the signer of one P2WPKH output.
pub mod LowR
use krusty_kms.Prelude.{
  ℕ, zero, suc, ◌+◌, Bytes, [], ◌∷◌, ◌++◌, Bool, false, ltb, ◌==◌, if◌then◌else◌, length,
  to_le_bytes,
}
use krusty_kms.Common.Error.{
  crypto_error, invalid_private_key, Result, ok, err, ok_or, guard, ◌>>=◌, ◌>>◌,
}
use krusty_kms.Bitcoin.External.{External}
use krusty_kms.Bitcoin.Tx.{sighash_all}

abbrev pub max_low_r_attempts : ℕ
max_low_r_attempts = 256

-- `bytes.first().is_some_and(|byte| *byte < 0x80)`
abbrev pub is_low : Bytes → Bool
is_low [] = false
is_low (b ∷ bytes) = ltb b 0x80

-- `[0u8; 32]` with the counter in the first four bytes; nothing for the first attempt.
unfoldable pub additional_data : ℕ → Bytes
additional_data counter = if counter == 0 then [] else to_le_bytes 4 counter ++ to_le_bytes 28 0

module _ (x : External) where
  open x use {SigningKey, Signature}

  pub record P2wpkhSigner : Type 0 where
    pub signing_key : SigningKey
    pub public_key : Bytes
    pub pubkey_hash : Bytes

  -- `P2wpkhSigner::new`: the compressed key must have 33 bytes.
  unfoldable pub new_signer : Bytes → Result P2wpkhSigner
  new_signer private_key = do
    signing_key ← ok_or (x.signing_key private_key) invalid_private_key
    let public_key = x.compressed_key signing_key
    guard (length public_key == 33) crypto_error
    ok (record {
      signing_key = signing_key;
      public_key = public_key;
      pubkey_hash = x.hash160 public_key;
    })

  -- `OP_0 PUSH20 <hash160(pubkey)>`
  unfoldable pub script_pubkey : P2wpkhSigner → Bytes
  script_pubkey signer = 0x00 ∷ 0x14 ∷ signer.pubkey_hash

  unfoldable pub attempt : P2wpkhSigner → Bytes → ℕ → Signature
  attempt signer sighash counter =
      x.normalize_s (x.sign_rfc6979 signer.signing_key sighash (additional_data counter))

  -- The loop over the counter, with the attempts that are left.
  unfoldable pub grind : P2wpkhSigner → Bytes → ℕ → ℕ → Result Signature
  unfolding attempt additional_data
  grind signer sighash zero counter = err crypto_error
  grind signer sighash (suc left) counter =
      let signature = attempt signer sighash counter in
      let rest = grind signer sighash left (counter + 1) in
      if is_low (x.to_bytes signature) then ok signature else rest

  unfoldable pub sign_low_r : P2wpkhSigner → Bytes → Result Signature
  unfolding grind
  sign_low_r signer sighash = grind signer sighash max_low_r_attempts 0

  -- DER, then the sighash byte.
  unfoldable pub sign_sighash_all : P2wpkhSigner → Bytes → Result Bytes
  unfolding sign_low_r
  sign_sighash_all signer sighash = do
    signature ← sign_low_r signer sighash
    ok (x.to_der signature ++ (sighash_all ∷ []))
