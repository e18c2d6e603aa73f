-- ===== src/Bitcoin/Tx/Form.antt =====
-- Network forms as input of `Transaction::parse_network` (crates/kms/src/bitcoin/tx.rs).
use krusty_kms.Prelude.{
  ℕ, ◌<◌, ◌≡◌, refl, Bytes, List, [], ◌∷◌, ◌++◌, append-nil, append_assoc, All, length, arith, Bool,
  true, false, ◌||◌, ltb, not, to_le_bytes,
}
use krusty_kms.Common.Error
use krusty_kms.Common.Error.{Result, ok, err, guard}
use krusty_kms.Bitcoin.Parse.{lift, ◌>>=◌}
use krusty_kms.Bitcoin.Parse.Rules.{
  Accepts, Accepts-pure, bind_step, Accepts-bind, Accepts-then, Accepts-last, Accepts-parse_many,
  write_all,
}
use krusty_kms.Bitcoin.Reader.{malformed, u32_le, starts_with, write_compact_size, write_var_bytes}
use krusty_kms.Bitcoin.Reader.Reads.{IsVarBytes}
use krusty_kms.Bitcoin.Reader.Writes.{u32_le-Accepts, compact_size-Accepts, var_bytes-Accepts}
use krusty_kms.Bitcoin.Tx.{
  Transaction, TxIn, write_inputs, write_outputs, read_marker, is_empty, skip_stacks, skip_witness,
  network_rest, network_body, parse_network, read_exact,
}
use krusty_kms.Bitcoin.Tx.WellFormed.{TransactionFits}
use krusty_kms.Bitcoin.Tx.Printing.{parse_inputs-Accepts, parse_outputs-Accepts}
use krusty_kms.Bitcoin.Tx.Network.{
  Stack, write_stack, any_items, or_assoc, marker, StackFits, WitnessFits, NetworkForm,
}

-- A positive count never reads as the marker.
marker_absent :
    (n : ℕ) (rest : Bytes)
    → 0 < n
    → read_marker (write_compact_size n ++ rest) ≡ ok (false, write_compact_size n ++ rest)
unfolding read_marker write_compact_size starts_with
marker_absent n rest h = ground arith

read_marker-marker :
    (segwit : Bool) (inputs : List TxIn) (rest : Bytes)
    → is_empty inputs ≡ false
    → read_marker (marker segwit ++ (write_inputs inputs ++ rest))
      ≡ ok (segwit, write_inputs inputs ++ rest)
unfolding write_inputs
read_marker-marker segwit [] rest h = cc
read_marker-marker true (i ∷ inputs) rest h = unfold read_marker starts_with in refl
read_marker-marker false (i ∷ inputs) rest h =
    rw append_assoc (marker_absent (length (i ∷ inputs)) _ (omega arith))

or_false : (b : Bool) → (b || false) ≡ b
or_false true = refl
or_false false = refl

no_stacks : (stacks : List Stack) → length stacks ≡ 0 → stacks ≡ []
no_stacks [] h = refl
no_stacks (s ∷ stacks) h = absurd (omega arith)

both_present :
    {a b : Bool} → a ≡ false → b ≡ false → Accepts (lift (guard (not (a || b)) malformed)) [] tt
both_present ha hb = rw (ha, hb) (Accepts-pure tt)

module _ (usize_max : ℕ) where
  skip_stacks-Accepts :
      (stacks : List Stack) (has : Bool)
      → All (StackFits usize_max) stacks
      → Accepts
          (skip_stacks usize_max (length stacks) has)
          (write_all write_stack stacks)
          (has || any_items stacks)
  unfolding skip_stacks write_stack
  skip_stacks-Accepts [] has h = rw or_false (Accepts-pure has)
  skip_stacks-Accepts (s ∷ stacks) has h =
      rw (append_assoc, ← or_assoc)
        (Accepts-bind _ (compact_size-Accepts usize_max (length s) h.0.1) (
          Accepts-bind _
            (Accepts-parse_many _ write_var_bytes (IsVarBytes usize_max) s
              (var_bytes-Accepts usize_max) h.0.0)
            (skip_stacks-Accepts stacks (has || ltb 0 (length s)) h.1)))

  skip_witness-Accepts :
      (segwit : Bool) (n : ℕ) (witness : Bytes)
      → WitnessFits usize_max segwit n witness
      → Accepts (skip_witness usize_max segwit n) witness tt
  unfolding skip_witness
  skip_witness-Accepts false n witness h =
      rw (h.written, no_stacks h.stacks h.per_input) (Accepts-pure tt)
  skip_witness-Accepts true n witness h =
      rw (h.written, ← h.per_input)
        (Accepts-then _ (skip_stacks-Accepts h.stacks false h.stacks_fit) (rw h.some_item refl))

  network_rest-Accepts :
      (tx : Transaction) (segwit : Bool) (witness : Bytes)
      → TransactionFits usize_max tx
      → is_empty tx.inputs ≡ false
      → is_empty tx.outputs ≡ false
      → WitnessFits usize_max segwit (length tx.inputs) witness
      → Accepts
          (network_rest usize_max tx.version segwit)
          (write_inputs tx.inputs
            ++ (write_outputs tx.outputs ++ (witness ++ to_le_bytes 4 tx.lock_time)))
          tx
  unfolding network_rest
  network_rest-Accepts tx segwit witness fits hi ho hw =
      Accepts-bind _ (parse_inputs-Accepts usize_max tx.inputs fits.inputs_fit fits.inputs_size) (
        Accepts-bind _
          (parse_outputs-Accepts usize_max tx.outputs fits.outputs_fit fits.outputs_size)
          (Accepts-bind _ {c = []} (both_present hi ho) (
            Accepts-bind _ (skip_witness-Accepts segwit (length tx.inputs) witness hw)
              (Accepts-last _ (u32_le-Accepts tx.lock_time fits.lock_time_word)))))

  network_body-form :
      (tx : Transaction) (bytes : Bytes)
      → NetworkForm usize_max tx bytes
      → network_body usize_max bytes ≡ ok (tx, [])
  unfolding network_body
  network_body-form tx bytes h =
      let rest =
        (network_rest-Accepts tx h.segwit h.witness h.fits h.has_inputs h.has_outputs
            h.witness_fits).on
          [] in
      rw h.layout (
        bind_step u32_le (λ v. read_marker >>= network_rest usize_max v)
          ((u32_le-Accepts tx.version h.fits.version_word).on _)
          (bind_step read_marker (network_rest usize_max tx.version)
            (read_marker-marker h.segwit tx.inputs _ h.has_inputs) (rw append-nil at rest)))

  -- `parse_network` accepts every network form of a transaction and returns that transaction.
  pub parse_network-form :
      (tx : Transaction) (bytes : Bytes)
      → NetworkForm usize_max tx bytes
      → parse_network usize_max bytes ≡ ok tx
  unfolding parse_network read_exact ◌>>=◌ Error.◌>>=◌
  parse_network-form tx bytes h = rw (network_body-form tx bytes h)
