-- ===== src/Bitcoin/Psbt/RoundTrip.antt =====
-- `Psbt::parse` and `Psbt::serialize` (crates/kms/src/bitcoin/psbt.rs) one after the other.
use krusty_kms.Prelude.{
  ◌≡◌, refl, sym, Bytes, [], ◌∷◌, append-nil, true, some, length, arith, AllBytes, All,
}
use krusty_kms.Common.Error.{ok, ok_or, guard, guard-eq-ok, ok_or-eq-ok}
use krusty_kms.Bitcoin.Parse.Rules.{
  Consumes, Consumes-pure, Consumes-lift, Consumes-bind, Consumes-parse_many, Prints, Accepts,
  Accepts-lift, Accepts-bind, Accepts-last, Accepts-parse_many_count,
}
use krusty_kms.Bitcoin.External.{External}
use krusty_kms.Bitcoin.Reader.{malformed}
use krusty_kms.Bitcoin.Reader.Reads.{take-Consumes}
use krusty_kms.Bitcoin.Reader.Writes.{take-Accepts}
use krusty_kms.Bitcoin.Tx.{parse_legacy}
use krusty_kms.Bitcoin.Tx.Parsing.{read_exact-eq-ok}
use krusty_kms.Bitcoin.Tx.Printing.{read_exact-Accepts}
use krusty_kms.Bitcoin.Psbt.Fields.{Scope}
use krusty_kms.Bitcoin.Psbt.Checks.{bytes_eq}
use krusty_kms.Bitcoin.Psbt.Pairs.{find, write_map}
use krusty_kms.Bitcoin.Psbt.Spent.{check_inputs}
use krusty_kms.Bitcoin.Psbt.Read.{Psbt, magic, global_unsigned_tx, serialize, psbt_body, parse}
use krusty_kms.Bitcoin.Psbt.Maps.{MapFits, read_map-Consumes, read_map-Accepts}

pub bytes_eq→eq : (a b : Bytes) → bytes_eq a b ≡ true → a ≡ b
unfolding bytes_eq
bytes_eq→eq [] [] h = refl
bytes_eq→eq [] (y ∷ b) h = cc
bytes_eq→eq (x ∷ a) [] h = cc
bytes_eq→eq (x ∷ a) (y ∷ b) h = ground (arith, bytes_eq→eq a b)

pub bytes_eq_refl : (a : Bytes) → bytes_eq a a ≡ true
unfolding bytes_eq
bytes_eq_refl [] = refl
bytes_eq_refl (x ∷ a) = ground (arith, bytes_eq_refl a)

module _ (x : External) where
  -- A PSBT that has a wire form: the maps fit the field table, the global map holds the unsigned
  -- transaction, there is a map for each input and output, and the input maps agree with the inputs.
  pub record PsbtFits (psbt : Psbt) : Type 0 where
    pub tx_bytes : Bytes
    pub global_fits : MapFits x Scope.global [] psbt.global
    pub tx_found : find psbt.global global_unsigned_tx ≡ some tx_bytes
    pub tx_read : parse_legacy x.usize_max tx_bytes ≡ ok psbt.unsigned_tx
    pub inputs_fit : All (MapFits x Scope.input []) psbt.inputs
    pub inputs_count : length psbt.inputs ≡ length psbt.unsigned_tx.inputs
    pub inputs_checked : check_inputs x psbt.unsigned_tx.inputs psbt.inputs ≡ ok tt
    pub outputs_fit : All (MapFits x Scope.output []) psbt.outputs
    pub outputs_count : length psbt.outputs ≡ length psbt.unsigned_tx.outputs

  psbt_body-Consumes : Consumes (psbt_body x) (Prints serialize PsbtFits)
  unfolding psbt_body serialize
  psbt_body-Consumes = Consumes-bind _ _ (take-Consumes 5) λ front a ba pa.
      Consumes-bind _ _ (Consumes-lift (guard (bytes_eq front magic) malformed)) λ _ b bb pb.
        Consumes-bind _ _ (read_map-Consumes x Scope.global) λ global c bc pc.
          Consumes-bind _ _ (Consumes-lift (ok_or (find global global_unsigned_tx) malformed))
            λ tx_bytes d bd pd.
              Consumes-bind _ _ (Consumes-lift (parse_legacy x.usize_max tx_bytes)) λ tx e be pe.
                Consumes-bind _ _
                  (Consumes-parse_many _ write_map (MapFits x Scope.input []) (length tx.inputs)
                    (read_map-Consumes x Scope.input))
                  λ inputs f bf pf.
                    Consumes-bind _ _ (Consumes-lift (check_inputs x tx.inputs inputs)) λ _ g bg pg.
                      Consumes-bind _ _
                        (Consumes-parse_many _ write_map (MapFits x Scope.output [])
                          (length tx.outputs) (read_map-Consumes x Scope.output))
                        λ outputs h bh ph. Consumes-pure _ (
                          rw
                              (
                                pa.0,
                                bytes_eq→eq front magic (guard-eq-ok _ _ pb.1),
                                pb.0,
                                pc.0,
                                pd.0,
                                pe.0,
                                pf.0,
                                pg.0,
                                ph.0,
                              )
                              (simp append-nil),
                          record {
                            tx_bytes = tx_bytes;
                            global_fits = pc.1;
                            tx_found = ok_or-eq-ok _ _ pd.1;
                            tx_read = pe.1;
                            inputs_fit = pf.1;
                            inputs_count = pf.2;
                            inputs_checked = pg.1;
                            outputs_fit = ph.1;
                            outputs_count = ph.2;
                          },
                        )

  psbt_body-Accepts : (psbt : Psbt) → PsbtFits psbt → Accepts (psbt_body x) (serialize psbt) psbt
  unfolding psbt_body serialize
  psbt_body-Accepts psbt h = Accepts-bind _ {c = magic} (take-Accepts magic) (
      Accepts-bind _ {c = []} (Accepts-lift (rw bytes_eq_refl refl)) (
        Accepts-bind _ (read_map-Accepts x Scope.global psbt.global h.global_fits) (
          Accepts-bind _ {c = []} (Accepts-lift (rw h.tx_found refl)) (
            Accepts-bind _ {c = []} (Accepts-lift h.tx_read) (
              Accepts-bind _
                (Accepts-parse_many_count _ write_map (MapFits x Scope.input []) psbt.inputs
                  h.inputs_count (read_map-Accepts x Scope.input) h.inputs_fit)
                (Accepts-bind _ {c = []} (Accepts-lift h.inputs_checked) (
                  Accepts-last _ (
                    Accepts-parse_many_count _ write_map (MapFits x Scope.output []) psbt.outputs
                      h.outputs_count (read_map-Accepts x Scope.output) h.outputs_fit))))))))

  -- `serialize(parse(bytes)) == bytes` for every string of bytes that `parse` accepts, and what it
  -- returns has the wire form of `PsbtFits`.
  pub serialize-parse :
      (bytes : Bytes) (psbt : Psbt)
      → AllBytes bytes
      → parse x bytes ≡ ok psbt
      → (serialize psbt ≡ bytes) × PsbtFits psbt
  unfolding parse
  serialize-parse bytes psbt all h =
      let (e, fits) = read_exact-eq-ok (psbt_body x) bytes psbt psbt_body-Consumes all h in
      (sym e, fits)

  -- `parse` returns every PSBT of the wire form `PsbtFits` from its serialization.
  pub parse-serialize : (psbt : Psbt) → PsbtFits psbt → parse x (serialize psbt) ≡ ok psbt
  unfolding parse
  parse-serialize psbt h =
      read_exact-Accepts (psbt_body x) (serialize psbt) psbt (psbt_body-Accepts psbt h)
