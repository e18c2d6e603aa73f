-- ===== src/Bitcoin/Tx/Parsing.antt =====
-- Input that the transaction parsers of crates/kms/src/bitcoin/tx.rs have accepted.
use krusty_kms.Prelude.{
  ℕ, ◌≡◌, refl, sym, ap, ap₂, ◌∙◌, Bytes, List, [], ◌∷◌, ◌++◌, append-nil, append_assoc, AllBytes,
  subst, All, length, arith,
}
use krusty_kms.Common.Error
use krusty_kms.Common.Error.{Result, ok, err}
use krusty_kms.Bitcoin.Parse.{Parse}
use krusty_kms.Bitcoin.Parse.Rules.{
  Consumes, Consumes-pure, Consumes-mono, Consumes-bind, Consumes-parse_many, Prints, write_all,
}
use krusty_kms.Bitcoin.Reader.{write_compact_size}
use krusty_kms.Bitcoin.Reader.Reads.{
  take-Consumes, u32_le-Consumes, u64_le-Consumes, compact_size-Consumes, var_bytes-Consumes,
  IsSize,
}
use krusty_kms.Bitcoin.Tx.{
  Transaction, TxOut, write_outpoint, write_input, write_output, write_inputs, write_outputs,
  serialize_legacy, parse_output, parse_input, parse_inputs, parse_outputs, read_exact, legacy_body,
  parse_legacy, parse_exact,
}
use krusty_kms.Bitcoin.Tx.WellFormed.{InputFits, OutputFits, TransactionFits}

left_nothing :
    {A : Type 0} (p : Parse A) (bytes : Bytes) (r : Result (A × Bytes)) {a : A}
    → p bytes ≡ r
    → read_exact p bytes ≡ ok a
    → p bytes ≡ ok (a, [])
unfolding read_exact Error.◌>>=◌
left_nothing p bytes (ok (v, [])) e h = ground arith
left_nothing p bytes (ok (v, b ∷ rest)) e h = ground arith
left_nothing p bytes (err x) e h = ground arith

-- A reader that must use up its input has consumed all of it.
pub read_exact-eq-ok :
    {A : Type 0} {Q : A → Bytes → Type 0} (p : Parse A) (bytes : Bytes) (a : A)
    → Consumes p Q
    → AllBytes bytes
    → read_exact p bytes ≡ ok a
    → Q a bytes
unfolding read_exact Error.◌>>=◌
read_exact-eq-ok {Q} p bytes a hp all h =
    let (c, e, bc, q) = hp.at bytes a [] all (left_nothing p bytes (p bytes) refl h) in
    subst (Q a) (sym (e ∙ append-nil c)) q

module _ (usize_max : ℕ) where
  -- A list is written behind its length.
  pub counted :
      {A : Type 0} (W : A → Type 0) (s : A → Bytes) (xs : List A) {n : ℕ} {d c : Bytes}
      → d ≡ write_compact_size n
      → c ≡ write_all s xs
      → length xs ≡ n
      → All W xs
      → IsSize usize_max n
      → Prints
          (λ ys. write_compact_size (length ys) ++ write_all s ys)
          (λ ys. All W ys × IsSize usize_max (length ys))
          xs
          (d ++ c)
  counted W s xs ed ec el fit size =
      (ap₂ ◌++◌ (ed ∙ ap write_compact_size (sym el)) ec, (fit, rw el size))

  pub parse_output-Consumes :
      Consumes (parse_output usize_max) (Prints write_output (OutputFits usize_max))
  unfolding parse_output write_output
  parse_output-Consumes = Consumes-bind _ _ u64_le-Consumes λ v d bd pd.
      Consumes-bind _ _ (var_bytes-Consumes usize_max) λ s e be pe.
        Consumes-pure _
          (ap₂ ◌++◌ pd.0 (append-nil e ∙ pe.0), record { value_word = pd.1; script = pe.1 })

  pub parse_input-Consumes :
      Consumes (parse_input usize_max) (Prints write_input (InputFits usize_max))
  unfolding parse_input write_input write_outpoint
  parse_input-Consumes = Consumes-bind _ _ (take-Consumes 32) λ t d bd pd.
      Consumes-bind _ _ u32_le-Consumes λ v e be pe.
        Consumes-bind _ _ (var_bytes-Consumes usize_max) λ s f bf pf.
          Consumes-bind _ _ u32_le-Consumes λ n g bg pg. Consumes-pure _ (
            rw (pd.0, pe.0, pf.0, pg.0) (simp (append_assoc, append-nil)),
            record {
              outpoint = record {
                txid_bytes = subst AllBytes pd.0 bd;
                txid_length = pd.1;
                vout_word = pe.1;
              };
              script = pf.1;
              sequence_word = pg.1;
            },
          )

  pub parse_inputs-Consumes :
      Consumes
        (parse_inputs usize_max)
        (Prints write_inputs (λ xs. All (InputFits usize_max) xs × IsSize usize_max (length xs)))
  unfolding parse_inputs write_inputs
  parse_inputs-Consumes = Consumes-bind _ _ (compact_size-Consumes usize_max) λ n d bd pd.
      Consumes-mono (Consumes-parse_many _ write_input (InputFits usize_max) n parse_input-Consumes)
        λ xs c bc pc. counted _ write_input xs pd.0 pc.0 pc.2 pc.1 pd.1

  pub parse_outputs-Consumes :
      Consumes
        (parse_outputs usize_max)
        (Prints write_outputs (λ xs. All (OutputFits usize_max) xs × IsSize usize_max (length xs)))
  unfolding parse_outputs write_outputs
  parse_outputs-Consumes = Consumes-bind _ _ (compact_size-Consumes usize_max) λ n d bd pd.
      Consumes-mono
        (Consumes-parse_many _ write_output (OutputFits usize_max) n parse_output-Consumes)
        λ xs c bc pc. counted _ write_output xs pd.0 pc.0 pc.2 pc.1 pd.1

  pub legacy_body-Consumes :
      Consumes (legacy_body usize_max) (Prints serialize_legacy (TransactionFits usize_max))
  unfolding legacy_body serialize_legacy
  legacy_body-Consumes = Consumes-bind _ _ u32_le-Consumes λ v d bd pd.
      Consumes-bind _ _ parse_inputs-Consumes λ is e be pe.
        Consumes-bind _ _ parse_outputs-Consumes λ os f bf pf.
          Consumes-bind _ _ u32_le-Consumes λ t g bg pg. Consumes-pure _ (
            rw (pd.0, pe.0, pf.0, pg.0) (simp append-nil),
            record {
              version_word = pd.1;
              inputs_fit = pe.1.0;
              inputs_size = pe.1.1;
              outputs_fit = pf.1.0;
              outputs_size = pf.1.1;
              lock_time_word = pg.1;
            },
          )

  -- `serialize_legacy(parse_legacy(bytes)) == bytes` for every string of bytes that `parse_legacy`
  -- accepts, and what it returns fits the wire form.
  pub serialize_legacy-parse_legacy :
      (bytes : Bytes) (tx : Transaction)
      → AllBytes bytes
      → parse_legacy usize_max bytes ≡ ok tx
      → (serialize_legacy tx ≡ bytes) × TransactionFits usize_max tx
  unfolding parse_legacy
  serialize_legacy-parse_legacy bytes tx all h =
      let (e, fits) =
        read_exact-eq-ok (legacy_body usize_max) bytes tx legacy_body-Consumes all h in
      (sym e, fits)

  -- The same for a standalone output.
  pub write_output-parse_exact :
      (bytes : Bytes) (o : TxOut)
      → AllBytes bytes
      → parse_exact usize_max bytes ≡ ok o
      → (write_output o ≡ bytes) × OutputFits usize_max o
  unfolding parse_exact
  write_output-parse_exact bytes o all h =
      let (e, fits) =
        read_exact-eq-ok (parse_output usize_max) bytes o parse_output-Consumes all h in
      (sym e, fits)
