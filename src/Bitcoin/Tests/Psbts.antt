-- ===== src/Bitcoin/Tests/Psbts.antt =====
-- The theorems on PSBTs, at one PSBT with one input of the test signer.
use krusty_kms.Prelude.{◌≡◌, refl, Bytes, [], ◌∷◌, ◌++◌, AllBytes, arith, some, subst}
use krusty_kms.Common.Error.{ok}
use krusty_kms.Bitcoin.Psbt.Fields.{Scope}
use krusty_kms.Bitcoin.Psbt.Maps.{read_map_loop_fuel}
use krusty_kms.Bitcoin.Psbt.RoundTrip.{PsbtFits, serialize-parse, parse-serialize}
use krusty_kms.Bitcoin.Psbt.Amounts.{
  AmountProven, SignedBase64, signable_amount-AmountProven, sign_with-SignedBase64,
}
use krusty_kms.Bitcoin.Tests.Data.{
  paid, previous_tx, previous_txid, spending_tx, pair, test_external, test_signer,
  are_bytes-AllBytes, low_bytes-AllBytes, low_bytes,
}
use krusty_kms.Bitcoin.Psbt.Read.{
  Psbt, parse, psbt_body, read_map, read_map_loop, read_pair, seen_key, serialize, split_key,
}
use krusty_kms.Bitcoin.Psbt.Checks.{
  any_script_sig, bytes_eq, check_pair, check_value, key_is_valid, value_is_valid,
}
use krusty_kms.Bitcoin.Psbt.Fields.{find_field, is_version_2_only, lookup, refused_on_listed_input}
use krusty_kms.Bitcoin.Psbt.Der.{der_integer, is_minimal_positive, is_signature, is_strict_der}
use krusty_kms.Bitcoin.Psbt.Pairs.{
  PairMap, any_mismatch, find, find_key, has_partial_signature_other_than_all, put_pair,
  put_partial_signature, require_declared_sighash, write_map, write_pair,
}
use krusty_kms.Bitcoin.Psbt.Spent.{check_inputs, check_spent, require_spent_transaction}
use krusty_kms.Bitcoin.Reader.{
  compact_size, compact_u64, finish, split_at_checked, starts_with, take, u16_le, u32_le, u64_le,
  var_bytes, write_compact_size, write_var_bytes,
}
use krusty_kms.Bitcoin.Tx.{
  double_sha256, legacy_body, network_body, network_rest, p2wpkh_sighash_all, parse_exact,
  parse_input, parse_inputs, parse_legacy, parse_network, parse_output, parse_outputs, peek,
  read_exact, read_marker, serialize_legacy, sighash_midstate, sighash_preimage, skip_stacks,
  skip_witness, txid, write_input, write_inputs, write_outpoint, write_output, write_outputs,
}
use krusty_kms.Bitcoin.Psbt.Sign.{
  check_allowed, check_each, checked_indices, decode_bounded, seen_index, sign_each, sign_input,
  sign_psbt, sign_with, signable_amount, spent_output, txout_eq,
}
use krusty_kms.Bitcoin.Keys.{additional_data, grind, script_pubkey, sign_low_r, sign_sighash_all}

-- A PSBT with these pairs in its one input map.
abbrev psbt_with : PairMap → Psbt
psbt_with input_map = record {
  global = pair 0x00 (serialize_legacy (spending_tx previous_txid)) ∷ [];
  unsigned_tx = spending_tx previous_txid;
  inputs = input_map ∷ [];
  outputs = [] ∷ [];
}

abbrev utxo_pairs : PairMap
utxo_pairs = pair 0x00 (serialize_legacy previous_tx) ∷ pair 0x01 (write_output paid) ∷ []

abbrev given : Psbt
given = psbt_with utxo_pairs

abbrev signed : Psbt
signed = psbt_with (
    utxo_pairs
    ++ (record {
      key = 0x02 ∷ test_signer.public_key;
      value = 0x30 ∷ 0x06 ∷ 0x02 ∷ 0x01 ∷ 0x01 ∷ 0x02 ∷ 0x01 ∷ 0x01 ∷ 0x01 ∷ [];
    }
        ∷ []))

given_reads : parse test_external (serialize given) ≡ ok given
unfolding serialize parse krusty_kms.Bitcoin.Parse.parse_many krusty_kms.Bitcoin.Parse.◌>>=◌
    krusty_kms.Common.Error.◌>>=◌ any_script_sig check_value key_is_valid value_is_valid bytes_eq
    check_pair is_version_2_only der_integer is_minimal_positive is_signature is_strict_der
    find_field lookup refused_on_listed_input any_mismatch find find_key require_declared_sighash
    has_partial_signature_other_than_all write_pair write_map put_pair put_partial_signature
    check_inputs check_spent require_spent_transaction compact_size compact_u64 finish
    split_at_checked starts_with u16_le u32_le u64_le write_compact_size write_var_bytes take
    var_bytes double_sha256 network_body network_rest parse_exact parse_input parse_network
    parse_output parse_outputs parse_inputs peek read_marker serialize_legacy skip_stacks
    skip_witness txid write_input write_inputs write_outpoint write_output write_outputs
    parse_legacy legacy_body read_exact read_pair split_key seen_key psbt_body read_map
    read_map_loop
given_reads = refl

given-AllBytes : AllBytes (serialize given)
unfolding serialize write_map write_pair serialize_legacy write_inputs write_input write_outputs
    write_output write_outpoint write_var_bytes write_compact_size
given-AllBytes = are_bytes-AllBytes (serialize given) refl

serialize-parse_example : (serialize given ≡ serialize given) × PsbtFits test_external given
serialize-parse_example =
    serialize-parse test_external (serialize given) given given-AllBytes given_reads

parse-serialize_example : parse test_external (serialize given) ≡ ok given
parse-serialize_example = parse-serialize test_external given (serialize-parse_example.1)

abbrev empty_map_bytes : Bytes
empty_map_bytes = 0x00 ∷ 0x07 ∷ []

read_map_loop_fuel_example :
    read_map_loop test_external 3 Scope.input [] empty_map_bytes
    ≡ read_map_loop test_external 100 Scope.input [] empty_map_bytes
read_map_loop_fuel_example =
    read_map_loop_fuel test_external 3 100 Scope.input [] empty_map_bytes
      (are_bytes-AllBytes empty_map_bytes refl) (omega arith) (omega arith)

amount_reads : signable_amount test_external given 0 test_signer ≡ ok 1000
unfolding serialize parse krusty_kms.Bitcoin.Parse.parse_many krusty_kms.Bitcoin.Parse.◌>>=◌
    krusty_kms.Common.Error.◌>>=◌ any_script_sig check_value key_is_valid value_is_valid bytes_eq
    check_pair is_version_2_only der_integer is_minimal_positive is_signature is_strict_der
    find_field lookup refused_on_listed_input any_mismatch find find_key require_declared_sighash
    has_partial_signature_other_than_all write_pair write_map put_pair put_partial_signature
    check_inputs check_spent require_spent_transaction compact_size compact_u64 finish
    split_at_checked starts_with u16_le u32_le u64_le write_compact_size write_var_bytes take
    var_bytes double_sha256 network_body network_rest parse_exact parse_input parse_network
    parse_output parse_outputs parse_inputs peek read_marker serialize_legacy skip_stacks
    skip_witness txid write_input write_inputs write_outpoint write_output write_outputs
    parse_legacy legacy_body read_exact read_pair split_key seen_key psbt_body read_map
    read_map_loop sign_with decode_bounded sign_psbt checked_indices check_each seen_index sign_each
    sign_input signable_amount spent_output check_allowed txout_eq sighash_midstate sighash_preimage
    p2wpkh_sighash_all sign_sighash_all sign_low_r grind additional_data script_pubkey
amount_reads = refl

signable_amount-AmountProven_example : AmountProven test_external test_signer given 0 1000
signable_amount-AmountProven_example =
    signable_amount-AmountProven test_external test_signer given 0 serialize-parse_example.1
      amount_reads

text_signs : sign_with test_external test_signer (serialize given) (0 ∷ []) ≡ ok (serialize signed)
unfolding serialize parse krusty_kms.Bitcoin.Parse.parse_many krusty_kms.Bitcoin.Parse.◌>>=◌
    krusty_kms.Common.Error.◌>>=◌ any_script_sig check_value key_is_valid value_is_valid bytes_eq
    check_pair is_version_2_only der_integer is_minimal_positive is_signature is_strict_der
    find_field lookup refused_on_listed_input any_mismatch find find_key require_declared_sighash
    has_partial_signature_other_than_all write_pair write_map put_pair put_partial_signature
    check_inputs check_spent require_spent_transaction compact_size compact_u64 finish
    split_at_checked starts_with u16_le u32_le u64_le write_compact_size write_var_bytes take
    var_bytes double_sha256 network_body network_rest parse_exact parse_input parse_network
    parse_output parse_outputs parse_inputs peek read_marker serialize_legacy skip_stacks
    skip_witness txid write_input write_inputs write_outpoint write_output write_outputs
    parse_legacy legacy_body read_exact read_pair split_key seen_key psbt_body read_map
    read_map_loop sign_with decode_bounded sign_psbt checked_indices check_each seen_index sign_each
    sign_input signable_amount spent_output check_allowed txout_eq sighash_midstate sighash_preimage
    p2wpkh_sighash_all sign_sighash_all sign_low_r grind additional_data script_pubkey
text_signs = refl

decodes_to_bytes :
    (text bytes : Bytes) → test_external.base64_decode text ≡ some bytes → AllBytes bytes
decodes_to_bytes text bytes h =
    let e : low_bytes text ≡ bytes = cc h in subst AllBytes e (low_bytes-AllBytes text)

sign_with-SignedBase64_example :
    SignedBase64 test_external test_signer (serialize given) (0 ∷ []) (serialize signed)
sign_with-SignedBase64_example =
    sign_with-SignedBase64 test_external test_signer (serialize given) (0 ∷ []) (serialize signed)
      decodes_to_bytes text_signs
