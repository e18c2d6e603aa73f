-- ===== src/Bitcoin/Tx/Printing.antt =====
-- Serialized transactions as input of the parsers of crates/kms/src/bitcoin/tx.rs.
use krusty_kms.Prelude.{ℕ, ◌≡◌, refl, Bytes, List, [], append-nil, append_assoc, All, length}
use krusty_kms.Common.Error
use krusty_kms.Common.Error.{ok}
use krusty_kms.Bitcoin.Parse.{Parse}
use krusty_kms.Bitcoin.Parse.Rules.{Accepts, Accepts-bind, Accepts-last, Accepts-parse_many}
use krusty_kms.Bitcoin.Reader.Reads.{IsSize}
use krusty_kms.Bitcoin.Reader.Writes.{
  take-Accepts-length, u32_le-Accepts, u64_le-Accepts, compact_size-Accepts, var_bytes-Accepts,
}
use krusty_kms.Bitcoin.Tx.{
  Transaction, TxIn, TxOut, write_outpoint, write_input, write_output, write_inputs, write_outputs,
  serialize_legacy, parse_output, parse_input, parse_inputs, parse_outputs, read_exact, legacy_body,
  parse_legacy, parse_exact,
}
use krusty_kms.Bitcoin.Tx.WellFormed.{InputFits, OutputFits, TransactionFits}

-- A value that a reader reads from the whole input is returned.
pub read_exact-Accepts :
    {A : Type 0} (p : Parse A) (bytes : Bytes) (a : A)
    → Accepts p bytes a
    → read_exact p bytes ≡ ok a
unfolding read_exact Error.◌>>=◌
read_exact-Accepts p bytes a h = rw (rw append-nil at (h.on [])) refl

module _ (usize_max : ℕ) where
  pub parse_output-Accepts :
      (o : TxOut) → OutputFits usize_max o → Accepts (parse_output usize_max) (write_output o) o
  unfolding parse_output write_output
  parse_output-Accepts o h =
      Accepts-bind _ (u64_le-Accepts o.value h.value_word)
        (Accepts-last _ (var_bytes-Accepts usize_max o.script_pubkey h.script))

  pub parse_input-Accepts :
      (i : TxIn) → InputFits usize_max i → Accepts (parse_input usize_max) (write_input i) i
  unfolding parse_input write_input write_outpoint
  parse_input-Accepts i h = rw append_assoc (
      Accepts-bind _ (take-Accepts-length 32 i.previous_output.txid h.outpoint.txid_length) (
        Accepts-bind _ (u32_le-Accepts i.previous_output.vout h.outpoint.vout_word) (
          Accepts-bind _ (var_bytes-Accepts usize_max i.script_sig h.script)
            (Accepts-last _ (u32_le-Accepts i.sequence h.sequence_word)))))

  pub parse_inputs-Accepts :
      (xs : List TxIn)
      → All (InputFits usize_max) xs
      → IsSize usize_max (length xs)
      → Accepts (parse_inputs usize_max) (write_inputs xs) xs
  unfolding parse_inputs write_inputs
  parse_inputs-Accepts xs fit size =
      Accepts-bind _ (compact_size-Accepts usize_max (length xs) size)
        (Accepts-parse_many _ write_input (InputFits usize_max) xs parse_input-Accepts fit)

  pub parse_outputs-Accepts :
      (xs : List TxOut)
      → All (OutputFits usize_max) xs
      → IsSize usize_max (length xs)
      → Accepts (parse_outputs usize_max) (write_outputs xs) xs
  unfolding parse_outputs write_outputs
  parse_outputs-Accepts xs fit size =
      Accepts-bind _ (compact_size-Accepts usize_max (length xs) size)
        (Accepts-parse_many _ write_output (OutputFits usize_max) xs parse_output-Accepts fit)

  legacy_body-Accepts :
      (tx : Transaction)
      → TransactionFits usize_max tx
      → Accepts (legacy_body usize_max) (serialize_legacy tx) tx
  unfolding legacy_body serialize_legacy
  legacy_body-Accepts tx h = Accepts-bind _ (u32_le-Accepts tx.version h.version_word) (
      Accepts-bind _ (parse_inputs-Accepts tx.inputs h.inputs_fit h.inputs_size) (
        Accepts-bind _ (parse_outputs-Accepts tx.outputs h.outputs_fit h.outputs_size)
          (Accepts-last _ (u32_le-Accepts tx.lock_time h.lock_time_word))))

  -- `parse_legacy` returns every transaction of the wire form `TransactionFits` from its serialization.
  pub parse_legacy-serialize_legacy :
      (tx : Transaction)
      → TransactionFits usize_max tx
      → parse_legacy usize_max (serialize_legacy tx) ≡ ok tx
  unfolding parse_legacy
  parse_legacy-serialize_legacy tx h =
      read_exact-Accepts (legacy_body usize_max) (serialize_legacy tx) tx (legacy_body-Accepts tx h)

  -- A standalone output too.
  pub parse_exact-write_output :
      (o : TxOut) → OutputFits usize_max o → parse_exact usize_max (write_output o) ≡ ok o
  unfolding parse_exact
  parse_exact-write_output o h =
      read_exact-Accepts (parse_output usize_max) (write_output o) o (parse_output-Accepts o h)
