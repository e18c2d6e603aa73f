-- ===== src/Bitcoin/Psbt/Spent.antt =====
-- crates/kms/src/bitcoin/psbt.rs: the checks of an input map against the input that it belongs to.
use krusty_kms.Prelude.{Bytes, List, ◌∷◌, ◌&&◌, Option, none, some, ltb, leb, length}
use krusty_kms.Common.Error.{Result, ok, guard, ◌>>=◌, ◌>>◌}
use krusty_kms.Bitcoin.External.{External}
use krusty_kms.Bitcoin.Reader.{malformed}
use krusty_kms.Bitcoin.Tx.{TxIn, OutPoint, parse_network, txid}
use krusty_kms.Bitcoin.Psbt.Checks.{bytes_eq}
use krusty_kms.Bitcoin.Psbt.Pairs.{PairMap, find, in_non_witness_utxo, require_declared_sighash}

module _ (x : External) where
  -- `require_spent_transaction`
  unfoldable pub check_spent : OutPoint → Option Bytes → Result (Unit {0})
  unfolding parse_network txid bytes_eq
  check_spent outpoint none = ok tt
  check_spent outpoint (some bytes) = do
    previous_tx ← parse_network x.usize_max bytes
    guard (bytes_eq (txid x.sha256 previous_tx) outpoint.txid) malformed
    guard (leb outpoint.vout x.usize_max && ltb outpoint.vout (length previous_tx.outputs))
        malformed

  unfoldable pub require_spent_transaction : OutPoint → PairMap → Result (Unit {0})
  unfolding check_spent find
  require_spent_transaction outpoint map = check_spent outpoint (find map in_non_witness_utxo)

  -- The loop over `unsigned_tx.inputs.iter().zip(&inputs)`.
  unfoldable pub check_inputs : List TxIn → List PairMap → Result (Unit {0})
  unfolding require_spent_transaction require_declared_sighash
  check_inputs (i ∷ inputs) (map ∷ maps) = do
    require_spent_transaction i.previous_output map
    require_declared_sighash map
    check_inputs inputs maps
  check_inputs _ _ = ok tt
