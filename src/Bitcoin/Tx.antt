-- ===== src/Bitcoin/Tx.antt =====
-- crates/kms/src/bitcoin/tx.rs: transactions, their wire form, txids and BIP-143 digests.
-- `usize_max` is `usize::MAX` of the target, `sha256` the hash of the `sha2` crate.
pub mod WellFormed
pub mod Parsing
pub mod Printing
pub mod Network
pub mod Form
pub mod Sighash
use krusty_kms.Prelude.{
  ℕ, zero, suc, Bytes, List, [], ◌∷◌, ◌++◌, Bool, true, false, Option, none, some, ltb, ◌||◌, not,
  if◌then◌else◌, length, get_elem?, to_le_bytes,
}
use krusty_kms.Common.Error.{Result, ok, err, ok_or, guard}
use krusty_kms.Common.Error
use krusty_kms.Bitcoin.Parse.{Parse, pure, fail, lift, ◌>>=◌, ◌>>◌, parse_many}
use krusty_kms.Bitcoin.Parse.Rules.{write_all}
use krusty_kms.Bitcoin.Reader.{
  malformed, take, array, u32_le, u64_le, starts_with, finish, write_compact_size, write_var_bytes,
  compact_size, var_bytes,
}

-- The only sighash type that is signed.
abbrev pub sighash_all : ℕ
sighash_all = 0x01

pub record OutPoint : Type 0 where
  pub txid : Bytes
  pub vout : ℕ

pub record TxIn : Type 0 where
  pub previous_output : OutPoint
  pub script_sig : Bytes
  pub sequence : ℕ

pub record TxOut : Type 0 where
  pub value : ℕ
  pub script_pubkey : Bytes

pub record Transaction : Type 0 where
  pub version : ℕ
  pub inputs : List TxIn
  pub outputs : List TxOut
  pub lock_time : ℕ

-- `OutPoint::serialize_into`: the bytes that it pushes.
unfoldable pub write_outpoint : OutPoint → Bytes
write_outpoint o = o.txid ++ to_le_bytes 4 o.vout

-- The body of the loop over the inputs in `serialize_legacy`.
unfoldable pub write_input : TxIn → Bytes
unfolding write_outpoint write_var_bytes
write_input i =
    write_outpoint i.previous_output ++ (write_var_bytes i.script_sig ++ to_le_bytes 4 i.sequence)

-- `TxOut::serialize_into`
unfoldable pub write_output : TxOut → Bytes
unfolding write_var_bytes
write_output o = to_le_bytes 8 o.value ++ write_var_bytes o.script_pubkey

unfoldable pub write_inputs : List TxIn → Bytes
unfolding write_compact_size write_input
write_inputs inputs = write_compact_size (length inputs) ++ write_all write_input inputs

unfoldable pub write_outputs : List TxOut → Bytes
unfolding write_compact_size write_output
write_outputs outputs = write_compact_size (length outputs) ++ write_all write_output outputs

unfoldable pub serialize_legacy : Transaction → Bytes
unfolding write_inputs write_outputs
serialize_legacy tx =
    to_le_bytes 4 tx.version
    ++ (write_inputs tx.inputs ++ (write_outputs tx.outputs ++ to_le_bytes 4 tx.lock_time))

-- `Reader::starts_with`, which reads nothing.
unfoldable pub peek : Bytes → Parse Bool
unfolding starts_with
peek prefix bytes = ok (starts_with prefix bytes, bytes)

abbrev skip_marker : Bool → Parse Bytes
skip_marker true = take 2
skip_marker false = pure []

-- `let segwit = reader.starts_with(&[0x00, 0x01]); if segwit { reader.take(2)?; }`
unfoldable pub read_marker : Parse Bool
unfolding take peek ◌>>=◌
read_marker = do segwit ← peek (0x00 ∷ 0x01 ∷ []); skip_marker segwit; pure segwit

module _ {A : Type 0} where
  abbrev pub is_empty : List A → Bool
  is_empty [] = true
  is_empty (x ∷ xs) = false

-- A value that must use up its input: `finish`, and the reader is dropped.
unfoldable pub read_exact : {A : Type 0} → Parse A → Bytes → Result A
unfolding finish ◌>>=◌
read_exact p bytes = Error.◌>>=◌ ((do value ← p; finish; pure value) bytes) λ r. ok r.0

module _ (usize_max : ℕ) where
  -- `TxOut::parse`
  unfoldable pub parse_output : Parse TxOut
  parse_output = do
    value ← u64_le
    script_pubkey ← var_bytes usize_max
    pure (record { value = value; script_pubkey = script_pubkey })

  unfoldable pub parse_input : Parse TxIn
  parse_input = do
    txid ← array 32
    vout ← u32_le
    script_sig ← var_bytes usize_max
    sequence ← u32_le
    pure (record {
      previous_output = record { txid = txid; vout = vout };
      script_sig = script_sig;
      sequence = sequence;
    })

  unfoldable pub parse_inputs : Parse (List TxIn)
  parse_inputs = compact_size usize_max >>= parse_many parse_input

  unfoldable pub parse_outputs : Parse (List TxOut)
  parse_outputs = compact_size usize_max >>= parse_many parse_output

  unfoldable pub parse_exact : Bytes → Result TxOut
  parse_exact bytes = read_exact parse_output bytes

  unfoldable pub legacy_body : Parse Transaction
  legacy_body = do
    version ← u32_le
    inputs ← parse_inputs
    outputs ← parse_outputs
    lock_time ← u32_le
    pure (record { version = version; inputs = inputs; outputs = outputs; lock_time = lock_time })

  unfoldable pub parse_legacy : Bytes → Result Transaction
  parse_legacy bytes = read_exact legacy_body bytes

  -- The witness stacks of the inputs that are left; `has_witness` says if one so far has an item.
  unfoldable pub skip_stacks : ℕ → Bool → Parse Bool
  skip_stacks zero has_witness = pure has_witness
  skip_stacks (suc inputs) has_witness = do
    items ← compact_size usize_max
    parse_many (var_bytes usize_max) items
    skip_stacks inputs (has_witness || ltb 0 items)

  unfoldable pub skip_witness : Bool → ℕ → Parse (Unit {0})
  skip_witness false inputs = pure tt
  skip_witness true inputs = do
    has_witness ← skip_stacks inputs false
    lift (guard has_witness malformed)

  -- From the inputs on.
  unfoldable pub network_rest : ℕ → Bool → Parse Transaction
  network_rest version segwit = do
    inputs ← parse_inputs
    outputs ← parse_outputs
    lift (guard (not (is_empty inputs || is_empty outputs)) malformed)
    skip_witness segwit (length inputs)
    lock_time ← u32_le
    pure (record { version = version; inputs = inputs; outputs = outputs; lock_time = lock_time })

  unfoldable pub network_body : Parse Transaction
  network_body = do version ← u32_le; segwit ← read_marker; network_rest version segwit

  unfoldable pub parse_network : Bytes → Result Transaction
  parse_network bytes = read_exact network_body bytes

pub record SighashMidstate : Type 0 where
  pub hash_prevouts : Bytes
  pub hash_sequence : Bytes
  pub hash_outputs : Bytes

module _ (sha256 : Bytes → Bytes) where
  unfoldable pub double_sha256 : Bytes → Bytes
  double_sha256 bytes = sha256 (sha256 bytes)

  -- In internal byte order.
  unfoldable pub txid : Transaction → Bytes
  unfolding double_sha256 serialize_legacy
  txid tx = double_sha256 (serialize_legacy tx)

  unfoldable pub sighash_midstate : Transaction → SighashMidstate
  unfolding double_sha256 write_outpoint write_output
  sighash_midstate tx = record {
    hash_prevouts = double_sha256 (write_all (λ i. write_outpoint i.previous_output) tx.inputs);
    hash_sequence = double_sha256 (write_all (λ i. to_le_bytes 4 i.sequence) tx.inputs);
    hash_outputs = double_sha256 (write_all write_output tx.outputs);
  }

-- What `p2wpkh_sighash_all` hashes.
unfoldable pub sighash_preimage : Transaction → SighashMidstate → TxIn → Bytes → ℕ → Bytes
unfolding write_outpoint
sighash_preimage tx midstate input pubkey_hash amount =
    to_le_bytes 4 tx.version
    ++ (midstate.hash_prevouts
        ++ (midstate.hash_sequence
            ++ (write_outpoint input.previous_output
                ++ ((0x19 ∷ 0x76 ∷ 0xa9 ∷ 0x14 ∷ [])
                    ++ (pubkey_hash
                        ++ ((0x88 ∷ 0xac ∷ [])
                            ++ (to_le_bytes 8 amount
                                ++ (to_le_bytes 4 input.sequence
                                    ++ (midstate.hash_outputs
                                        ++ (to_le_bytes 4 tx.lock_time
                                            ++ to_le_bytes 4 sighash_all))))))))))

unfoldable pub p2wpkh_sighash_all :
    (Bytes → Bytes) → Transaction → SighashMidstate → ℕ → Bytes → ℕ → Result Bytes
unfolding double_sha256 sighash_preimage
p2wpkh_sighash_all sha256 tx midstate index pubkey_hash amount =
    Error.◌>>=◌ (ok_or (get_elem? tx.inputs index) malformed)
      λ input. ok (double_sha256 sha256 (sighash_preimage tx midstate input pubkey_hash amount))
