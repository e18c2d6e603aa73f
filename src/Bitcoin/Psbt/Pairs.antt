-- ===== src/Bitcoin/Psbt/Pairs.antt =====
-- crates/kms/src/bitcoin/psbt.rs and psbt/input_rules.rs: a map as its ordered key-value pairs.
use krusty_kms.Prelude.{
  ℕ, Bytes, List, [], ◌∷◌, ◌++◌, Bool, true, false, not, ◌&&◌, ◌||◌, Option, none, some, ◌==◌,
  if◌then◌else◌, length, get_elem?,
}
use krusty_kms.Common.Error.{Result, ok, err}
use krusty_kms.Bitcoin.Parse.Rules.{write_all}
use krusty_kms.Bitcoin.Reader.{malformed, write_compact_size, write_var_bytes}
use krusty_kms.Bitcoin.Tx.{sighash_all}
use krusty_kms.Bitcoin.Psbt.Checks.{bytes_eq, is_some_and}

abbrev pub in_non_witness_utxo : ℕ
in_non_witness_utxo = 0x00

abbrev pub in_witness_utxo : ℕ
in_witness_utxo = 0x01

abbrev pub in_partial_sig : ℕ
in_partial_sig = 0x02

abbrev pub in_sighash_type : ℕ
in_sighash_type = 0x03

pub record Pair : Type 0 where
  pub key : Bytes
  pub value : Bytes

-- `Map`
abbrev pub PairMap : Type 0
PairMap = List Pair

-- The value of the first pair with exactly this key.
unfoldable pub find_key : PairMap → Bytes → Option Bytes
unfolding bytes_eq
find_key [] key = none
find_key (p ∷ map) key = if bytes_eq p.key key then some p.value else find_key map key

unfoldable pub find : PairMap → ℕ → Option Bytes
unfolding find_key
find map key_type = find_key map (key_type ∷ [])

-- `pair.key.first() == Some(&IN_PARTIAL_SIG)`
abbrev pub is_partial_sig : Pair → Bool
is_partial_sig p = is_some_and (get_elem? p.key 0) (λ b. b == in_partial_sig)

-- `value.last()`
abbrev pub last : Bytes → Option ℕ
last [] = none
last (b ∷ []) = some b
last (b ∷ c ∷ bytes) = last (c ∷ bytes)

-- `declared.try_into().ok()` into four bytes.
abbrev pub four_bytes : Bytes → Option Bytes
four_bytes value = if length value == 4 then some value else none

-- `pair.value.last().map(|&byte| [byte, 0, 0, 0]) != declared`
abbrev pub differs_from : Option Bytes → Option ℕ → Bool
differs_from none none = false
differs_from none (some b) = true
differs_from (some declared) none = true
differs_from (some declared) (some b) = not (bytes_eq (b ∷ 0 ∷ 0 ∷ 0 ∷ []) declared)

unfoldable pub any_mismatch : PairMap → Option Bytes → Bool
unfolding bytes_eq
any_mismatch [] declared = false
any_mismatch (p ∷ map) declared =
    (is_partial_sig p && differs_from declared (last p.value)) || any_mismatch map declared

-- `input_rules::require_declared_sighash`
unfoldable pub require_declared_sighash : PairMap → Result (Unit {0})
unfolding find any_mismatch
require_declared_sighash map = elim (find map in_sighash_type) [
  | none ↦ ok tt
  | some declared ↦ if any_mismatch map (four_bytes declared) then err malformed else ok tt
]

-- `input_rules::has_partial_signature_other_than_all`
unfoldable pub has_partial_signature_other_than_all : PairMap → Bool
has_partial_signature_other_than_all [] = false
has_partial_signature_other_than_all (p ∷ map) =
    (is_partial_sig p && not (is_some_and (last p.value) (λ b. b == sighash_all)))
    || has_partial_signature_other_than_all map

-- The pairs of a map, closed by an empty key.
unfoldable pub write_pair : Pair → Bytes
write_pair p = write_var_bytes p.key ++ write_var_bytes p.value

unfoldable pub write_map : PairMap → Bytes
write_map map = write_all write_pair map ++ write_compact_size 0

-- `put_partial_signature`: replaces the value under the key, or adds the pair at the end.
unfoldable pub put_pair : PairMap → Bytes → Bytes → PairMap
unfolding bytes_eq
put_pair [] key value = record { key = key; value = value } ∷ []
put_pair (p ∷ map) key value =
    if bytes_eq p.key key then record p { value = value } ∷ map else p ∷ put_pair map key value

unfoldable pub put_partial_signature : PairMap → Bytes → Bytes → PairMap
unfolding put_pair
put_partial_signature map public_key signature =
    put_pair map (in_partial_sig ∷ public_key) signature
