-- ===== src/Bitcoin/Tests/Data.antt =====
-- One spend of a P2WPKH output, and simple functions for what the code takes from other crates.
use krusty_kms.Prelude.{
  ℕ, Bytes, [], ◌∷◌, ◌++◌, ◌-◌, ◌^◌, ◌%◌, Bool, true, ◌&&◌, ltb, ◌≡◌, AllBytes, arith, some,
  to_le_bytes, from_le_bytes,
}
use krusty_kms.Bitcoin.External.{External}
use krusty_kms.Bitcoin.Keys.{P2wpkhSigner}
use krusty_kms.Bitcoin.Tx.{TxOut, Transaction}
use krusty_kms.Bitcoin.Psbt.Pairs.{Pair}

-- `usize::MAX` of a 64-bit target.
abbrev pub usize_max : ℕ
usize_max = 2 ^ 64 - 1

-- The bytes as one number, in 32 bytes: a function of the right shape.
abbrev pub fold_32 : Bytes → Bytes
fold_32 bytes = to_le_bytes 32 (from_le_bytes bytes)

abbrev pub fold_20 : Bytes → Bytes
fold_20 bytes = to_le_bytes 20 (from_le_bytes bytes)

abbrev pub low_bytes : Bytes → Bytes
low_bytes [] = []
low_bytes (b ∷ bytes) = b % 256 ∷ low_bytes bytes

abbrev pub test_external : External
test_external = record {
  usize_max = usize_max;
  sha256 = fold_32;
  ripemd160 = fold_20;
  hash160 = fold_20;
  is_sec1_key = λ k. true;
  SigningKey = Bytes;
  signing_key = λ k. some k;
  compressed_key = λ k. 0x02 ∷ fold_32 k;
  Signature = Bytes;
  sign_rfc6979 = λ k h d. h ++ d;
  normalize_s = λ s. s;
  to_bytes = λ s. s;
  to_der = λ s. 0x30 ∷ 0x06 ∷ 0x02 ∷ 0x01 ∷ 0x01 ∷ 0x02 ∷ 0x01 ∷ 0x01 ∷ [];
  base64_decode = λ t. some (low_bytes t);
  base64_encode = λ b. b;
}

abbrev pub test_signer : P2wpkhSigner test_external
test_signer = record {
  signing_key = 0x07 ∷ [];
  public_key = 0x02 ∷ fold_32 (0x07 ∷ []);
  pubkey_hash = fold_20 (0x02 ∷ 0x07 ∷ []);
}

-- 1000 satoshi to the test signer.
abbrev pub paid : TxOut
paid = record { value = 1000; script_pubkey = 0x00 ∷ 0x14 ∷ test_signer.pubkey_hash }

abbrev pub previous_tx : Transaction
previous_tx = record {
  version = 2;
  inputs =
      record {
        previous_output = record { txid = fold_32 (0x05 ∷ 0x06 ∷ []); vout = 3 };
        script_sig = 0x51 ∷ [];
        sequence = 0xffff_ffff;
      }
      ∷ [];
  outputs = paid ∷ [];
  lock_time = 0;
}

-- Its identifier under `fold_32`: the first 32 of its bytes.
abbrev pub previous_txid : Bytes
previous_txid =
    2 ∷ 0 ∷ 0 ∷ 0 ∷ 1 ∷ 5 ∷ 6 ∷ 0 ∷ 0 ∷ 0 ∷ 0 ∷ 0 ∷ 0 ∷ 0 ∷ 0 ∷ 0 ∷ 0 ∷ 0 ∷ 0 ∷ 0 ∷ 0 ∷ 0 ∷ 0 ∷ 0
    ∷ 0 ∷ 0 ∷ 0 ∷ 0 ∷ 0 ∷ 0 ∷ 0 ∷ 0 ∷ []

abbrev pub spending_tx : Bytes → Transaction
spending_tx id = record {
  version = 2;
  inputs =
      record {
        previous_output = record { txid = id; vout = 0 };
        script_sig = [];
        sequence = 0xffff_fffd;
      }
      ∷ [];
  outputs = record { value = 900; script_pubkey = 0x6a ∷ [] } ∷ [];
  lock_time = 17;
}

abbrev pub pair : ℕ → Bytes → Pair
pair key_type value = record { key = key_type ∷ []; value = value }

-- Byte strings, by a test.
abbrev pub are_bytes : Bytes → Bool
are_bytes [] = true
are_bytes (b ∷ bytes) = ltb b 256 && are_bytes bytes

pub are_bytes-AllBytes : (bytes : Bytes) → are_bytes bytes ≡ true → AllBytes bytes
are_bytes-AllBytes [] h = tt
are_bytes-AllBytes (b ∷ bytes) h = (ground arith, are_bytes-AllBytes bytes (ground arith))

pub low_bytes-AllBytes : (bytes : Bytes) → AllBytes (low_bytes bytes)
low_bytes-AllBytes [] = tt
low_bytes-AllBytes (b ∷ bytes) = (omega arith, low_bytes-AllBytes bytes)
