-- ===== src/Bitcoin/Tx/Sighash.antt =====
-- The BIP-143 preimage that `p2wpkh_sighash_all` (crates/kms/src/bitcoin/tx.rs) hashes.
use krusty_kms.Prelude.{
  ℕ, ◌≡◌, refl, sym, ◌∙◌, Bytes, [], ◌∷◌, length, length-append, append_inj, to_le_bytes,
  length-to_le_bytes, to_le_bytes-injective, arith,
}
use krusty_kms.Bitcoin.Reader.Reads.{IsWord}
use krusty_kms.Bitcoin.Tx.{
  Transaction, TxIn, OutPoint, SighashMidstate, write_outpoint, sighash_preimage,
}
use krusty_kms.Bitcoin.Tx.WellFormed.{OutPointFits}

-- The arguments of the digest, with the sizes that their Rust types fix.
pub record DigestInput : Type 0 where
  pub tx : Transaction
  pub midstate : SighashMidstate
  pub input : TxIn
  pub pubkey_hash : Bytes
  pub amount : ℕ
  pub version_word : IsWord 4 tx.version
  pub lock_time_word : IsWord 4 tx.lock_time
  pub prevouts_length : length midstate.hash_prevouts ≡ 32
  pub sequences_length : length midstate.hash_sequence ≡ 32
  pub outputs_length : length midstate.hash_outputs ≡ 32
  pub outpoint : OutPointFits input.previous_output
  pub sequence_word : IsWord 4 input.sequence
  pub pubkey_hash_length : length pubkey_hash ≡ 20
  pub amount_word : IsWord 8 amount

abbrev pub preimage : DigestInput → Bytes
preimage d = sighash_preimage d.tx d.midstate d.input d.pubkey_hash d.amount

length-outpoint : (o : OutPoint) → OutPointFits o → length (write_outpoint o) ≡ 36
unfolding write_outpoint
length-outpoint o h = rw length-append (omega (arith, h.txid_length, length-to_le_bytes 4 o.vout))

-- The preimage of arguments of the sizes that their Rust types fix has the 182 bytes reserved for it.
pub length-preimage : (d : DigestInput) → length (preimage d) ≡ 182
unfolding sighash_preimage
length-preimage d = simp length-append (
    omega (
      arith,
      d.prevouts_length,
      d.sequences_length,
      d.outputs_length,
      d.pubkey_hash_length,
      length-outpoint d.input.previous_output d.outpoint,
    ))

-- The same spend: version, lock time, outpoint, sequence, key hash, amount and the three hashes over
-- the transaction agree.
pub record SameSpend (d e : DigestInput) : Type 0 where
  pub version : d.tx.version ≡ e.tx.version
  pub hash_prevouts : d.midstate.hash_prevouts ≡ e.midstate.hash_prevouts
  pub hash_sequence : d.midstate.hash_sequence ≡ e.midstate.hash_sequence
  pub txid : d.input.previous_output.txid ≡ e.input.previous_output.txid
  pub vout : d.input.previous_output.vout ≡ e.input.previous_output.vout
  pub pubkey_hash : d.pubkey_hash ≡ e.pubkey_hash
  pub amount : d.amount ≡ e.amount
  pub sequence : d.input.sequence ≡ e.input.sequence
  pub hash_outputs : d.midstate.hash_outputs ≡ e.midstate.hash_outputs
  pub lock_time : d.tx.lock_time ≡ e.tx.lock_time

same_length : {a b n : ℕ} → a ≡ n → b ≡ n → a ≡ b
same_length p q = p ∙ sym q

-- Arguments of the sizes that their Rust types fix, with equal preimages, ask for the same spend in
-- the sense of `SameSpend`.
pub preimage-injective : (d e : DigestInput) → preimage d ≡ preimage e → SameSpend d e
unfolding sighash_preimage write_outpoint
preimage-injective d e h =
    let (version, h1) =
      append_inj (to_le_bytes 4 d.tx.version) (to_le_bytes 4 e.tx.version) refl h in
    let (prevouts, h2) =
      append_inj d.midstate.hash_prevouts e.midstate.hash_prevouts
        (same_length d.prevouts_length e.prevouts_length) h1 in
    let (sequences, h3) =
      append_inj d.midstate.hash_sequence e.midstate.hash_sequence
        (same_length d.sequences_length e.sequences_length) h2 in
    let (outpoint, h4) =
      append_inj (write_outpoint d.input.previous_output) (write_outpoint e.input.previous_output)
        (same_length (length-outpoint d.input.previous_output d.outpoint)
          (length-outpoint e.input.previous_output e.outpoint))
        h3 in
    let (txid, vout) =
      append_inj d.input.previous_output.txid e.input.previous_output.txid
        (same_length d.outpoint.txid_length e.outpoint.txid_length) outpoint in
    let h5 =
      (append_inj (0x19 ∷ 0x76 ∷ 0xa9 ∷ 0x14 ∷ []) (0x19 ∷ 0x76 ∷ 0xa9 ∷ 0x14 ∷ []) refl h4).1 in
    let (pubkey_hash, h6) =
      append_inj d.pubkey_hash e.pubkey_hash (same_length d.pubkey_hash_length e.pubkey_hash_length)
        h5 in
    let h7 = (append_inj (0x88 ∷ 0xac ∷ []) (0x88 ∷ 0xac ∷ []) refl h6).1 in
    let (amount, h8) = append_inj (to_le_bytes 8 d.amount) (to_le_bytes 8 e.amount) refl h7 in
    let (sequence, h9) =
      append_inj (to_le_bytes 4 d.input.sequence) (to_le_bytes 4 e.input.sequence) refl h8 in
    let (outputs, h10) =
      append_inj d.midstate.hash_outputs e.midstate.hash_outputs
        (same_length d.outputs_length e.outputs_length) h9 in
    let (lock_time, _) =
      append_inj (to_le_bytes 4 d.tx.lock_time) (to_le_bytes 4 e.tx.lock_time) refl h10 in
    record {
      version = to_le_bytes-injective 4 _ _ d.version_word e.version_word version;
      hash_prevouts = prevouts;
      hash_sequence = sequences;
      txid = txid;
      vout = to_le_bytes-injective 4 _ _ d.outpoint.vout_word e.outpoint.vout_word vout;
      pubkey_hash = pubkey_hash;
      amount = to_le_bytes-injective 8 _ _ d.amount_word e.amount_word amount;
      sequence = to_le_bytes-injective 4 _ _ d.sequence_word e.sequence_word sequence;
      hash_outputs = outputs;
      lock_time = to_le_bytes-injective 4 _ _ d.lock_time_word e.lock_time_word lock_time;
    }
