-- ===== src/Bitcoin/Bip322/Binding.antt =====
-- The serialization of the transaction `to_spend` (crates/kms/src/bitcoin/bip322.rs).
use krusty_kms.Prelude.{
  ◌≤◌, ◌≡◌, refl, sym, ap, ◌∙◌, Bytes, [], ◌∷◌, AllBytes, length, to_le_bytes-AllBytes, arith,
}
use krusty_kms.Common.Error.{ok-injective}
use krusty_kms.Bitcoin.External.{External}
use krusty_kms.Bitcoin.Reader.Reads.{IsVarBytes}
use krusty_kms.Bitcoin.Tx.{Transaction, serialize_legacy}
use krusty_kms.Bitcoin.Tx.WellFormed.{TransactionFits}
use krusty_kms.Bitcoin.Tx.Printing.{parse_legacy-serialize_legacy}
use krusty_kms.Bitcoin.Bip322.{message_hash, to_spend}

-- A hash of 32 bytes.
pub record IsHash (hash : Bytes) : Type 0 where
  pub bytes : AllBytes hash
  pub size : length hash ≡ 32

module _ (x : External) where
  to_spend-TransactionFits :
      (challenge message : Bytes)
      → 34 ≤ x.usize_max
      → IsVarBytes x.usize_max challenge
      → IsHash (message_hash x message)
      → TransactionFits x.usize_max (to_spend x challenge message)
  unfolding to_spend
  to_spend-TransactionFits challenge message room script hash = record {
    version_word = omega arith;
    inputs_fit = (
      record {
        outpoint = record {
          txid_bytes = to_le_bytes-AllBytes 32 0;
          txid_length = refl;
          vout_word = omega arith;
        };
        script = (
          (omega arith, (omega arith, hash.bytes)),
          (omega (arith, hash.size), omega (arith, hash.size, room)),
        );
        sequence_word = omega arith;
      },
      tt,
    );
    inputs_size = (omega arith, omega (arith, room));
    outputs_fit = (record { value_word = omega arith; script = script }, tt);
    outputs_size = (omega arith, omega (arith, room));
    lock_time_word = omega arith;
  }

  abbrev first_script_sig : Transaction → Bytes
  first_script_sig tx = elim tx.inputs [ [] ↦ [] | i ∷ _ ↦ i.script_sig ]

  abbrev first_script_pubkey : Transaction → Bytes
  first_script_pubkey tx = elim tx.outputs [ [] ↦ [] | o ∷ _ ↦ o.script_pubkey ]

  abbrev drop_two : Bytes → Bytes
  drop_two (a ∷ b ∷ bytes) = bytes
  drop_two bytes = bytes

  -- When hashes have 32 bytes and the scripts are strings of bytes that fit in memory, transactions to
  -- spend with the same serialization, and so with the same hashed bytes, have the same script and
  -- message hash.
  pub to_spend-injective :
      (challenge message challenge' message' : Bytes)
      → 34 ≤ x.usize_max
      → IsVarBytes x.usize_max challenge
      → IsVarBytes x.usize_max challenge'
      → IsHash (message_hash x message)
      → IsHash (message_hash x message')
      → serialize_legacy (to_spend x challenge message)
        ≡ serialize_legacy (to_spend x challenge' message')
      → (challenge ≡ challenge') × (message_hash x message ≡ message_hash x message')
  unfolding to_spend
  to_spend-injective challenge message challenge' message' room script script' hash hash' h =
      let reads =
        parse_legacy-serialize_legacy x.usize_max _
          (to_spend-TransactionFits challenge message room script hash) in
      let reads' =
        parse_legacy-serialize_legacy x.usize_max _
          (to_spend-TransactionFits challenge' message' room script' hash') in
      let same : to_spend x challenge message ≡ to_spend x challenge' message' =
        ok-injective _ _ (sym reads ∙ (rw h reads')) in
      (ap first_script_pubkey same, ap (λ tx. drop_two (first_script_sig tx)) same)
