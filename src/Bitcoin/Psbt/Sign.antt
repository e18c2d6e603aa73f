-- ===== src/Bitcoin/Psbt/Sign.antt =====
-- crates/kms/src/bitcoin/psbt.rs: signing the listed inputs.
use krusty_kms.Prelude.{
  ℕ, ◌+◌, ◌*◌, ◌/◌, Bytes, List, [], ◌∷◌, Bool, false, not, ◌&&◌, ◌||◌, Option, none, some, ltb,
  leb, ◌==◌, if◌then◌else◌, length, get_elem?, set, to_le_bytes,
}
use krusty_kms.Common.Error.{Result, ok, err, ok_or, guard, transaction_error, ◌>>=◌, ◌>>◌}
use krusty_kms.Bitcoin.External.{External}
use krusty_kms.Bitcoin.Keys.{P2wpkhSigner, new_signer, script_pubkey, sign_sighash_all}
use krusty_kms.Bitcoin.Reader.{malformed, compact_u64}
use krusty_kms.Bitcoin.Tx.{
  Transaction, TxOut, SighashMidstate, sighash_all, is_empty, parse_network, parse_exact,
  sighash_midstate, p2wpkh_sighash_all,
}
use krusty_kms.Bitcoin.Psbt.Fields.{refused_on_listed_input}
use krusty_kms.Bitcoin.Psbt.Checks.{bytes_eq}
use krusty_kms.Bitcoin.Psbt.Pairs.{
  PairMap, find, in_non_witness_utxo, in_witness_utxo, in_sighash_type,
  has_partial_signature_other_than_all, put_partial_signature,
}
use krusty_kms.Bitcoin.Psbt.Read.{Psbt, parse, serialize}

-- 4 MiB
abbrev pub max_psbt_bytes : ℕ
max_psbt_bytes = 4 * 1024 * 1024

-- `BTreeSet` of the indices so far.
unfoldable pub seen_index : List ℕ → ℕ → Bool
seen_index [] i = false
seen_index (s ∷ seen) i = s == i || seen_index seen i

-- `usize::try_from(index).unwrap_or(usize::MAX)`
abbrev pub position_of : ℕ → ℕ → ℕ
position_of usize_max index = if leb index usize_max then index else usize_max

module _ (usize_max : ℕ) where
  unfoldable pub check_each : List ℕ → List ℕ → ℕ → Result (List ℕ)
  check_each [] seen input_count = ok []
  check_each (index ∷ indices) seen input_count = do
    let position = position_of usize_max index
    guard (ltb position input_count) transaction_error
    guard (not (seen_index seen position)) transaction_error
    checked ← check_each indices (position ∷ seen) input_count
    ok (position ∷ checked)

  unfoldable pub checked_indices : List ℕ → ℕ → Result (List ℕ)
  checked_indices indices input_count = do
    guard (not (is_empty indices)) transaction_error
    guard (leb (length indices) input_count) transaction_error
    check_each indices [] input_count

unfoldable pub txout_eq : TxOut → TxOut → Bool
unfolding bytes_eq
txout_eq a b = a.value == b.value && bytes_eq a.script_pubkey b.script_pubkey

-- No field of the map may be one that the table refuses on a listed input.
unfoldable pub check_allowed : PairMap → Result (Unit {0})
check_allowed [] = ok tt
check_allowed (p ∷ map) = do
  (key_type, _) ← compact_u64 p.key
  elim (refused_on_listed_input key_type) [ none ↦ ok tt | some reason ↦ err transaction_error ]
  check_allowed map

-- `find(map, IN_SIGHASH_TYPE).is_some_and(|value| value != sighash_all)`
abbrev pub other_sighash_type : Option Bytes → Bool
other_sighash_type none = false
other_sighash_type (some value) = not (bytes_eq value (to_le_bytes 4 sighash_all))

module _ (x : External) where
  unfoldable pub spent_output : ℕ → Transaction → Option TxOut
  spent_output vout previous_tx =
      if leb vout x.usize_max then get_elem? previous_tx.outputs vout else none

  unfoldable pub signable_amount : Psbt → ℕ → P2wpkhSigner x → Result ℕ
  signable_amount psbt index signer = do
    map ← ok_or (get_elem? psbt.inputs index) transaction_error
    check_allowed map
    guard (not (other_sighash_type (find map in_sighash_type))) transaction_error
    guard (not (has_partial_signature_other_than_all map)) transaction_error
    utxo_bytes ← ok_or (find map in_witness_utxo) transaction_error
    witness_utxo ← parse_exact x.usize_max utxo_bytes
    guard (bytes_eq witness_utxo.script_pubkey (script_pubkey x signer)) transaction_error
    tx_bytes ← ok_or (find map in_non_witness_utxo) transaction_error
    previous_tx ← parse_network x.usize_max tx_bytes
    input ← ok_or (get_elem? psbt.unsigned_tx.inputs index) transaction_error
    spent ← ok_or (spent_output input.previous_output.vout previous_tx) transaction_error
    guard (txout_eq spent witness_utxo) transaction_error
    ok witness_utxo.value

  -- The body of the loop over the listed indices.
  unfoldable pub sign_input : SighashMidstate → Psbt → ℕ → P2wpkhSigner x → Result Psbt
  sign_input midstate psbt index signer = do
    amount ← signable_amount psbt index signer
    sighash ← p2wpkh_sighash_all x.sha256 psbt.unsigned_tx midstate index signer.pubkey_hash amount
    signature ← sign_sighash_all x signer sighash
    map ← ok_or (get_elem? psbt.inputs index) transaction_error
    ok (record psbt {
      inputs = set psbt.inputs index (put_partial_signature map signer.public_key signature);
    })

  unfoldable pub sign_each : SighashMidstate → Psbt → List ℕ → P2wpkhSigner x → Result Psbt
  sign_each midstate psbt [] signer = ok psbt
  sign_each midstate psbt (index ∷ indices) signer = do
    psbt' ← sign_input midstate psbt index signer
    sign_each midstate psbt' indices signer

  -- `sign_with` between the decoding and the encoding.
  unfoldable pub sign_psbt : Psbt → List ℕ → P2wpkhSigner x → Result Psbt
  sign_psbt psbt input_indices signer = do
    indices ← checked_indices x.usize_max input_indices (length psbt.inputs)
    sign_each (sighash_midstate x.sha256 psbt.unsigned_tx) psbt indices signer

  -- Base64 carries three bytes in every four characters.
  unfoldable pub decode_bounded : Bytes → Result Bytes
  decode_bounded psbt_base64 = do
    guard (leb (length psbt_base64) ((max_psbt_bytes + 2) / 3 * 4)) malformed
    bytes ← ok_or (x.base64_decode psbt_base64) malformed
    guard (leb (length bytes) max_psbt_bytes) malformed
    ok bytes

  unfoldable pub sign_with : P2wpkhSigner x → Bytes → List ℕ → Result Bytes
  sign_with signer psbt_base64 input_indices = do
    bytes ← decode_bounded psbt_base64
    psbt ← parse x bytes
    signed ← sign_psbt psbt input_indices signer
    ok (x.base64_encode (serialize signed))

  unfoldable pub sign_bitcoin_psbt_inputs : Bytes → Bytes → List ℕ → Result Bytes
  sign_bitcoin_psbt_inputs private_key psbt_base64 input_indices = do
    signer ← new_signer x private_key
    sign_with signer psbt_base64 input_indices
