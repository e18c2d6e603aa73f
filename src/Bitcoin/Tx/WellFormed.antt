-- ===== src/Bitcoin/Tx/WellFormed.antt =====
-- The transactions that have a wire form: every number fits its field, and every list its length.
use krusty_kms.Prelude.{ℕ, ◌≡◌, All, AllBytes, length}
use krusty_kms.Bitcoin.Reader.Reads.{IsWord, IsSize, IsVarBytes}
use krusty_kms.Bitcoin.Tx.{OutPoint, TxIn, TxOut, Transaction}

pub record OutPointFits (o : OutPoint) : Type 0 where
  pub txid_bytes : AllBytes o.txid
  pub txid_length : length o.txid ≡ 32
  pub vout_word : IsWord 4 o.vout

module _ (usize_max : ℕ) where
  pub record InputFits (i : TxIn) : Type 0 where
    pub outpoint : OutPointFits i.previous_output
    pub script : IsVarBytes usize_max i.script_sig
    pub sequence_word : IsWord 4 i.sequence

  pub record OutputFits (o : TxOut) : Type 0 where
    pub value_word : IsWord 8 o.value
    pub script : IsVarBytes usize_max o.script_pubkey

  pub record TransactionFits (tx : Transaction) : Type 0 where
    pub version_word : IsWord 4 tx.version
    pub inputs_fit : All InputFits tx.inputs
    pub inputs_size : IsSize usize_max (length tx.inputs)
    pub outputs_fit : All OutputFits tx.outputs
    pub outputs_size : IsSize usize_max (length tx.outputs)
    pub lock_time_word : IsWord 4 tx.lock_time
