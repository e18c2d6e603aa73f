-- ===== src/Bitcoin/Tests/Transactions.antt =====
-- The theorems on CompactSize numbers, transactions and digests, at concrete bytes.
use krusty_kms.Prelude.{true, ◌<◌, ◌^◌, ◌≡◌, refl, Bytes, [], ◌∷◌, ◌++◌, arith}
use krusty_kms.Common.Error.{ok}
use krusty_kms.Bitcoin.Reader.{
  compact_u64, write_compact_size, write_var_bytes, u32_le, u64_le, var_bytes, compact_size,
}
use krusty_kms.Bitcoin.Reader.CompactSize.{compact_u64-eq-ok}
use krusty_kms.Bitcoin.Tx.{
  parse_network, network_body, network_rest, skip_stacks, skip_witness, read_marker,
  sighash_preimage, serialize_legacy, parse_legacy, legacy_body, read_exact, parse_inputs,
  parse_input, parse_outputs, parse_output, write_output, write_outpoint, write_input, write_inputs,
  write_outputs,
}
use krusty_kms.Bitcoin.Tx.WellFormed.{TransactionFits}
use krusty_kms.Bitcoin.Tx.Parsing.{serialize_legacy-parse_legacy}
use krusty_kms.Bitcoin.Tx.Printing.{parse_legacy-serialize_legacy}
use krusty_kms.Bitcoin.Tx.Network.{NetworkForm, write_stack, parse_network-NetworkForm}
use krusty_kms.Bitcoin.Tx.Sighash.{DigestInput, SameSpend, preimage-injective}
use krusty_kms.Bitcoin.Tests.Data.{
  usize_max, paid, previous_tx, fold_32, fold_20, are_bytes-AllBytes,
}

abbrev some_bytes : Bytes
some_bytes = 0xfd ∷ 0x00 ∷ 0x01 ∷ 0x07 ∷ []

reads : compact_u64 some_bytes ≡ ok (256, 0x07 ∷ [])
unfolding compact_u64 krusty_kms.Bitcoin.Parse.◌>>=◌
reads = refl

compact_u64-eq-ok_example : (some_bytes ≡ write_compact_size 256 ++ 0x07 ∷ []) × (256 < 2 ^ 64)
compact_u64-eq-ok_example =
    compact_u64-eq-ok some_bytes 256 (0x07 ∷ []) (are_bytes-AllBytes some_bytes refl) reads

-- `previous_tx`, written.
abbrev legacy_bytes : Bytes
legacy_bytes =
    0x02
    ∷ 0
    ∷ 0
    ∷ 0
    ∷ 0x01
    ∷ (fold_32 (0x05 ∷ 0x06 ∷ [])
        ++ (0x03
            ∷ 0
            ∷ 0
            ∷ 0
            ∷ 0x01
            ∷ 0x51
            ∷ 0xff
            ∷ 0xff
            ∷ 0xff
            ∷ 0xff
            ∷ 0x01
            ∷ 0xe8
            ∷ 0x03
            ∷ 0
            ∷ 0
            ∷ 0
            ∷ 0
            ∷ 0
            ∷ 0
            ∷ 22
            ∷ (paid.script_pubkey ++ (0 ∷ 0 ∷ 0 ∷ 0 ∷ []))))

legacy_reads : parse_legacy usize_max legacy_bytes ≡ ok previous_tx
unfolding parse_legacy legacy_body read_exact parse_inputs parse_input parse_outputs parse_output
    u32_le u64_le var_bytes compact_size compact_u64 krusty_kms.Common.Error.◌>>=◌
    krusty_kms.Bitcoin.Parse.parse_many
legacy_reads = refl

serialize_legacy-parse_legacy_example :
    (serialize_legacy previous_tx ≡ legacy_bytes) × TransactionFits usize_max previous_tx
serialize_legacy-parse_legacy_example =
    serialize_legacy-parse_legacy usize_max legacy_bytes previous_tx
      (are_bytes-AllBytes legacy_bytes refl) legacy_reads

previous_tx-TransactionFits : TransactionFits usize_max previous_tx
previous_tx-TransactionFits = record {
  version_word = omega arith;
  inputs_fit = (
    record {
      outpoint = record {
        txid_bytes = are_bytes-AllBytes (fold_32 (0x05 ∷ 0x06 ∷ [])) refl;
        txid_length = refl;
        vout_word = omega arith;
      };
      script = (are_bytes-AllBytes (0x51 ∷ []) refl, (omega arith, omega arith));
      sequence_word = omega arith;
    },
    tt,
  );
  inputs_size = (omega arith, omega arith);
  outputs_fit = (
    record {
      value_word = omega arith;
      script = (are_bytes-AllBytes paid.script_pubkey refl, (omega arith, omega arith));
    },
    tt,
  );
  outputs_size = (omega arith, omega arith);
  lock_time_word = omega arith;
}

parse_legacy-serialize_legacy_example :
    parse_legacy usize_max (serialize_legacy previous_tx) ≡ ok previous_tx
parse_legacy-serialize_legacy_example =
    parse_legacy-serialize_legacy usize_max previous_tx previous_tx-TransactionFits

-- `previous_tx` with a witness of one stack of two items.
abbrev network_bytes : Bytes
network_bytes =
    0x02
    ∷ 0
    ∷ 0
    ∷ 0
    ∷ 0x00
    ∷ 0x01
    ∷ 0x01
    ∷ (fold_32 (0x05 ∷ 0x06 ∷ [])
        ++ (0x03
            ∷ 0
            ∷ 0
            ∷ 0
            ∷ 0x01
            ∷ 0x51
            ∷ 0xff
            ∷ 0xff
            ∷ 0xff
            ∷ 0xff
            ∷ 0x01
            ∷ 0xe8
            ∷ 0x03
            ∷ 0
            ∷ 0
            ∷ 0
            ∷ 0
            ∷ 0
            ∷ 0
            ∷ 22
            ∷ (paid.script_pubkey
                ++ (0x02 ∷ 0x01 ∷ 0x09 ∷ 0x02 ∷ 0x08 ∷ 0x07 ∷ 0 ∷ 0 ∷ 0 ∷ 0 ∷ []))))

network_reads : parse_network usize_max network_bytes ≡ ok previous_tx
unfolding parse_network read_exact krusty_kms.Common.Error.◌>>=◌ network_body u32_le read_marker
    network_rest parse_inputs compact_size krusty_kms.Bitcoin.Parse.parse_many parse_input var_bytes
    parse_outputs parse_output skip_witness skip_stacks
network_reads = refl

parse_network-NetworkForm_example : NetworkForm usize_max previous_tx network_bytes
parse_network-NetworkForm_example =
    parse_network-NetworkForm usize_max network_bytes previous_tx
      (are_bytes-AllBytes network_bytes refl) network_reads

previous_tx-NetworkForm : NetworkForm usize_max previous_tx network_bytes
unfolding write_inputs write_outputs write_input write_output write_outpoint write_var_bytes
    write_stack
previous_tx-NetworkForm = record {
  segwit = true;
  witness = 0x02 ∷ 0x01 ∷ 0x09 ∷ 0x02 ∷ 0x08 ∷ 0x07 ∷ [];
  witness_fits = record {
    stacks = ((0x09 ∷ []) ∷ (0x08 ∷ 0x07 ∷ []) ∷ []) ∷ [];
    stacks_fit = (
      (
        (
          (are_bytes-AllBytes (0x09 ∷ []) refl, (omega arith, omega arith)),
          ((are_bytes-AllBytes (0x08 ∷ 0x07 ∷ []) refl, (omega arith, omega arith)), tt),
        ),
        (omega arith, omega arith),
      ),
      tt,
    );
    written = refl;
    per_input = refl;
    some_item = refl;
  };
  fits = previous_tx-TransactionFits;
  has_inputs = refl;
  has_outputs = refl;
  layout = refl;
}

abbrev digest_input : DigestInput
digest_input = record {
  tx = previous_tx;
  midstate = record {
    hash_prevouts = fold_32 (1 ∷ []);
    hash_sequence = fold_32 (2 ∷ []);
    hash_outputs = fold_32 (3 ∷ []);
  };
  input = record {
    previous_output = record { txid = fold_32 (0x05 ∷ 0x06 ∷ []); vout = 3 };
    script_sig = 0x51 ∷ [];
    sequence = 0xffff_ffff;
  };
  pubkey_hash = fold_20 (4 ∷ []);
  amount = 1000;
  version_word = omega arith;
  lock_time_word = omega arith;
  prevouts_length = refl;
  sequences_length = refl;
  outputs_length = refl;
  outpoint = record {
    txid_bytes = are_bytes-AllBytes (fold_32 (0x05 ∷ 0x06 ∷ [])) refl;
    txid_length = refl;
    vout_word = omega arith;
  };
  sequence_word = omega arith;
  pubkey_hash_length = refl;
  amount_word = omega arith;
}

-- The same digest of the transaction without its input script, which the digest does not cover.
abbrev other_digest_input : DigestInput
other_digest_input = record digest_input { input = record digest_input.input { script_sig = [] } }

preimage-injective_example : SameSpend digest_input other_digest_input
unfolding sighash_preimage
preimage-injective_example = preimage-injective digest_input other_digest_input refl
