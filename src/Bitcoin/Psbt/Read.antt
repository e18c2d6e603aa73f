-- ===== src/Bitcoin/Psbt/Read.antt =====
-- crates/kms/src/bitcoin/psbt.rs: reading and writing a version-0 PSBT.
use krusty_kms.Prelude.{
  ℕ, zero, suc, Bytes, List, [], ◌∷◌, ◌++◌, Bool, false, not, ◌&&◌, ◌||◌, ◌==◌, if◌then◌else◌,
  length,
}
use krusty_kms.Common.Error.{Result, ok_or, guard}
use krusty_kms.Bitcoin.Parse.{Parse, pure, fail, lift, ◌>>=◌, ◌>>◌, parse_many}
use krusty_kms.Bitcoin.Parse.Rules.{write_all}
use krusty_kms.Bitcoin.External.{External}
use krusty_kms.Bitcoin.Reader.{malformed, take, compact_u64, var_bytes}
use krusty_kms.Bitcoin.Tx.{Transaction, is_empty, read_exact, parse_legacy}
use krusty_kms.Bitcoin.Psbt.Fields.{Scope}
use krusty_kms.Bitcoin.Psbt.Checks.{bytes_eq, check_pair}
use krusty_kms.Bitcoin.Psbt.Pairs.{Pair, PairMap, find, write_map}
use krusty_kms.Bitcoin.Psbt.Spent.{check_inputs}

-- `b"psbt\xff"`
abbrev pub magic : Bytes
magic = b'p' ∷ b's' ∷ b'b' ∷ b't' ∷ 0xff ∷ []

abbrev pub global_unsigned_tx : ℕ
global_unsigned_tx = 0x00

pub record Psbt : Type 0 where
  pub global : PairMap
  pub unsigned_tx : Transaction
  pub inputs : List PairMap
  pub outputs : List PairMap

unfoldable pub serialize : Psbt → Bytes
unfolding write_map
serialize psbt =
    magic
    ++ (write_map psbt.global
        ++ (write_all write_map psbt.inputs ++ write_all write_map psbt.outputs))

-- The keys that a map has shown so far: type and data.
abbrev pub Keys : Type 0
Keys = List (ℕ × Bytes)

unfoldable pub seen_key : Keys → ℕ → Bytes → Bool
unfolding bytes_eq
seen_key [] key_type key_data = false
seen_key ((t, d) ∷ keys) key_type key_data =
    (t == key_type && bytes_eq d key_data) || seen_key keys key_type key_data

-- `Reader::new(key)`, its CompactSize and the rest.
unfoldable pub split_key : Bytes → Result (ℕ × Bytes)
unfolding compact_u64
split_key key = compact_u64 key

module _ (x : External) where
  -- One pair: its key must be new, and fit the table with its value.
  unfoldable pub read_pair : Scope → Keys → Bytes → Parse (Pair × ℕ × Bytes)
  read_pair scope keys key = do
    (key_type, key_data) ← lift (split_key key)
    lift (guard (not (seen_key keys key_type key_data)) malformed)
    value ← var_bytes x.usize_max
    lift (check_pair x scope key_type key_data value)
    pure (record { key = key; value = value }, key_type, key_data)

  -- Every round but the last reads a key of at least one byte, so it uses up at most as much fuel as
  -- there are bytes.
  unfoldable pub read_map_loop : ℕ → Scope → Keys → Parse PairMap
  read_map_loop zero scope keys = fail malformed
  read_map_loop (suc fuel) scope keys = do
    key ← var_bytes x.usize_max
    if is_empty key then pure [] else do
      (pair, key_type, key_data) ← read_pair scope keys key
      map ← read_map_loop fuel scope ((key_type, key_data) ∷ keys)
      pure (pair ∷ map)

  unfoldable pub read_map : Scope → Parse PairMap
  read_map scope bytes = read_map_loop (suc (length bytes)) scope [] bytes

  unfoldable pub psbt_body : Parse Psbt
  psbt_body = do
    front ← take 5
    lift (guard (bytes_eq front magic) malformed)
    global ← read_map Scope.global
    tx_bytes ← lift (ok_or (find global global_unsigned_tx) malformed)
    unsigned_tx ← lift (parse_legacy x.usize_max tx_bytes)
    inputs ← parse_many (read_map Scope.input) (length unsigned_tx.inputs)
    lift (check_inputs x unsigned_tx.inputs inputs)
    outputs ← parse_many (read_map Scope.output) (length unsigned_tx.outputs)
    pure (record { global = global; unsigned_tx = unsigned_tx; inputs = inputs; outputs = outputs })

  -- `Psbt::parse`
  unfoldable pub parse : Bytes → Result Psbt
  parse bytes = read_exact psbt_body bytes
