-- ===== src/Bitcoin/Bip322.antt =====
-- crates/kms/src/bitcoin/bip322.rs: "simple" message signatures. Text is its bytes.
pub mod Binding
use krusty_kms.Prelude.{
  ℕ, zero, ◌+◌, ◌-◌, ◌^◌, Bytes, List, [], ◌∷◌, ◌++◌, Bool, not, ◌&&◌, ◌||◌, leb, if◌then◌else◌,
  to_le_bytes,
}
use krusty_kms.Common.Error.{Result, ok, guard, crypto_error, ◌>>=◌, ◌>>◌}
use krusty_kms.Bitcoin.External.{External}
use krusty_kms.Bitcoin.Keys.{P2wpkhSigner, new_signer, script_pubkey, sign_sighash_all}
use krusty_kms.Bitcoin.Bech32.{encode_segwit_v0}
use krusty_kms.Bitcoin.Reader.{write_compact_size, write_var_bytes}
use krusty_kms.Bitcoin.Tx.{Transaction, txid, sighash_midstate, p2wpkh_sighash_all}
use krusty_kms.Bitcoin.Psbt.Checks.{bytes_eq}

pub data Bip322Encoding : Type 0 where
  prefixed legacy_unprefixed : Bip322Encoding

-- `b"BIP0322-signed-message"`
abbrev pub message_tag : Bytes
message_tag =
    b'B' ∷ b'I' ∷ b'P' ∷ b'0' ∷ b'3' ∷ b'2' ∷ b'2' ∷ b'-' ∷ b's' ∷ b'i' ∷ b'g' ∷ b'n' ∷ b'e' ∷ b'd'
    ∷ b'-' ∷ b'm' ∷ b'e' ∷ b's' ∷ b's' ∷ b'a' ∷ b'g' ∷ b'e' ∷ []

abbrev pub op_return : ℕ
op_return = 0x6a

abbrev pub mainnet_hrp : Bytes
mainnet_hrp = b'b' ∷ b'c' ∷ []

-- `str::to_ascii_uppercase`
unfoldable pub to_ascii_uppercase : Bytes → Bytes
to_ascii_uppercase [] = []
to_ascii_uppercase (c ∷ text) =
    (if leb b'a' c && leb c b'z' then c - 32 else c) ∷ to_ascii_uppercase text

abbrev pub with_encoding : Bip322Encoding → Bytes → Bytes
with_encoding prefixed encoded = b's' ∷ b'm' ∷ b'p' ∷ encoded
with_encoding legacy_unprefixed encoded = encoded

unfoldable pub to_sign : Bytes → Transaction
to_sign to_spend_txid = record {
  version = 0;
  inputs =
      record {
        previous_output = record { txid = to_spend_txid; vout = 0 };
        script_sig = [];
        sequence = 0;
      }
      ∷ [];
  outputs = record { value = 0; script_pubkey = op_return ∷ [] } ∷ [];
  lock_time = 0;
}

module _ (x : External) where
  unfoldable pub message_hash : Bytes → Bytes
  message_hash message = let tag = x.sha256 message_tag in x.sha256 (tag ++ (tag ++ message))

  unfoldable pub to_spend : Bytes → Bytes → Transaction
  to_spend message_challenge message = record {
    version = 0;
    inputs =
        record {
          previous_output = record { txid = to_le_bytes 32 0; vout = 2 ^ 32 - 1 };
          script_sig = 0x00 ∷ 0x20 ∷ message_hash message;
          sequence = 0;
        }
        ∷ [];
    outputs = record { value = 0; script_pubkey = message_challenge } ∷ [];
    lock_time = 0;
  }

  -- `P2wpkhSigner::address`
  unfoldable pub address_of : P2wpkhSigner x → Result Bytes
  address_of signer = encode_segwit_v0 mainnet_hrp signer.pubkey_hash

  unfoldable pub sign_bip322_simple : Bytes → Bytes → Bytes → Bip322Encoding → Result Bytes
  sign_bip322_simple private_key address message encoding = do
    signer ← new_signer x private_key
    own ← address_of signer
    guard (bytes_eq address own || bytes_eq address (to_ascii_uppercase own)) crypto_error
    let spent = to_spend (script_pubkey x signer) message
    let signing = to_sign (txid x.sha256 spent)
    sighash ←
        p2wpkh_sighash_all x.sha256 signing (sighash_midstate x.sha256 signing) 0 signer.pubkey_hash
          0
    signature ← sign_sighash_all x signer sighash
    let witness =
        write_compact_size 2 ++ (write_var_bytes signature ++ write_var_bytes signer.public_key)
    ok (with_encoding encoding (x.base64_encode witness))
