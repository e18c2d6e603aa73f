-- ===== src/Bitcoin/Psbt/Checks.antt =====
-- crates/kms/src/bitcoin/psbt/fields.rs: what the table requires of a key and of a value.
use krusty_kms.Prelude.{
  ℕ, ◌-◌, ◌/◌, ◌%◌, Bytes, List, [], ◌∷◌, Bool, true, false, not, ◌&&◌, ◌||◌, Option, none, some,
  leb, ◌==◌, if◌then◌else◌, length, get_elem?,
}
use krusty_kms.Common.Error.{Result, ok, err, guard}
use krusty_kms.Common.Error
use krusty_kms.Bitcoin.External.{External}
use krusty_kms.Bitcoin.Parse.{Parse, ◌>>=◌, ◌>>◌, parse_many}
use krusty_kms.Bitcoin.Reader.{
  malformed, split_at_checked, take, compact_u64, compact_size, var_bytes, finish,
}
use krusty_kms.Bitcoin.Tx.{TxIn, is_empty, parse_legacy, parse_network, parse_exact, double_sha256}
use krusty_kms.Bitcoin.Psbt.Fields.{
  Scope, Field, KeyData, Value, HashKind, no_key_data, hash, public_key, extended_public_key,
  proprietary, any, unsigned_transaction, transaction, signature, u32, version, key_origin,
  xpub_key_origin, witness_stack, preimage, ripemd160_of, sha256_of, hash160_of, hash256_of,
  is_version_2_only, lookup,
}
use krusty_kms.Bitcoin.Psbt.Der.{is_signature}

-- Equality of byte strings.
unfoldable pub bytes_eq : Bytes → Bytes → Bool
bytes_eq [] [] = true
bytes_eq (a ∷ as') (b ∷ bs) = a == b && bytes_eq as' bs
bytes_eq _ _ = false

abbrev all_zero : Bytes → Bool
all_zero [] = true
all_zero (b ∷ bytes) = b == 0 && all_zero bytes

-- `bytes.get(n..)`
abbrev from_index : ℕ → Bytes → Option Bytes
from_index n bytes = elim (split_at_checked n bytes) [ none ↦ none | some (_, tail) ↦ some tail ]

-- `bytes.get(..n)`
abbrev up_to : ℕ → Bytes → Option Bytes
up_to n bytes = elim (split_at_checked n bytes) [ none ↦ none | some (head, _) ↦ some head ]

abbrev pub is_some_and {ℓ} : {A : Type ℓ} → Option A → (A → Bool) → Bool
is_some_and none p = false
is_some_and (some a) p = p a

-- `bytes.get(lo..hi)`
abbrev range_of : ℕ → ℕ → Bytes → Option Bytes
range_of lo hi bytes = elim (up_to hi bytes) [ none ↦ none | some front ↦ from_index lo front ]

abbrev is_ok {ℓ} : {A : Type ℓ} → Result A → Bool
is_ok (ok a) = true
is_ok (err e) = false

-- BIP-32: a master key has a zero parent fingerprint and a zero child number.
is_master_consistent : Bytes → Bool
unfolding split_at_checked
is_master_consistent xpub =
    not (is_some_and (get_elem? xpub 4) (λ depth. depth == 0))
    || is_some_and (range_of 5 13 xpub) all_zero

is_key_origin : Bytes → Bool
is_key_origin value = not (is_empty value) && (length value % 4 == 0)

-- `xpub` or `tpub`
abbrev is_public_version : Bytes → Bool
is_public_version v =
    bytes_eq v (0x04 ∷ 0x88 ∷ 0xb2 ∷ 0x1e ∷ []) || bytes_eq v (0x04 ∷ 0x35 ∷ 0x87 ∷ 0xcf ∷ [])

abbrev first_is_compressed : Bytes → Bool
first_is_compressed [] = false
first_is_compressed (b ∷ bytes) = b == 0x02 || b == 0x03

-- The length that the first byte asks for.
is_key_shaped : Bytes → Bool
is_key_shaped [] = false
is_key_shaped (tag ∷ rest) =
    if tag == 0x02 || tag == 0x03
    then length rest == 32
    else if tag == 0x04
    then length rest == 64
    else false

-- Whether the number of path elements is the depth byte of the extended key.
is_depth : Bytes → Bytes → Bool
is_depth key_data value =
    is_some_and (get_elem? key_data 4)
      (λ depth. leb 1 (length value / 4) && (length value / 4 - 1 == depth))

module _ (x : External) where
  is_public_key : Bytes → Bool
  unfolding is_key_shaped
  is_public_key bytes = is_key_shaped bytes && x.is_sec1_key bytes

  read_proprietary_key : Parse ℕ
  unfolding compact_size take compact_u64 ◌>>=◌
  read_proprietary_key = do
    identifier_len ← compact_size x.usize_max
    take identifier_len
    compact_u64

  read_witness_stack : Parse (Unit {0})
  unfolding compact_size var_bytes parse_many finish ◌>>=◌
  read_witness_stack = do
    items ← compact_size x.usize_max
    parse_many (var_bytes x.usize_max) items
    finish

  hash_of : HashKind → Bytes → Bytes
  unfolding double_sha256
  hash_of ripemd160_of value = x.ripemd160 value
  hash_of sha256_of value = x.sha256 value
  hash_of hash160_of value = x.hash160 value
  hash_of hash256_of value = double_sha256 x.sha256 value

  unfoldable pub key_is_valid : KeyData → Bytes → Bool
  unfolding is_public_key is_master_consistent read_proprietary_key bytes_eq
  key_is_valid no_key_data key_data = is_empty key_data
  key_is_valid (hash len) key_data = length key_data == len
  key_is_valid public_key key_data = is_public_key key_data
  key_is_valid extended_public_key key_data =
      length key_data == 78
      && (is_some_and (up_to 4 key_data) is_public_version
          && (is_master_consistent key_data
              && is_some_and (from_index 45 key_data)
                  (λ k. first_is_compressed k && is_public_key k)))
  key_is_valid proprietary key_data = is_ok (read_proprietary_key key_data)

  -- `tx.inputs.iter().any(|input| !input.script_sig.is_empty())`
  unfoldable pub any_script_sig : List TxIn → Bool
  any_script_sig [] = false
  any_script_sig (i ∷ inputs) = not (is_empty i.script_sig) || any_script_sig inputs

  unfoldable pub value_is_valid : Value → Bytes → Bytes → Result Bool
  unfolding any_script_sig is_key_origin is_depth read_witness_stack hash_of bytes_eq
  value_is_valid any key_data value = ok true
  value_is_valid unsigned_transaction key_data value =
      Error.◌>>=◌ (parse_legacy x.usize_max value)
        λ tx. if any_script_sig tx.inputs then err malformed else ok true
  value_is_valid transaction key_data value =
      Error.◌>>=◌ (parse_network x.usize_max value) λ _. ok true
  value_is_valid Value.output key_data value =
      Error.◌>>=◌ (parse_exact x.usize_max value) λ _. ok true
  value_is_valid signature key_data value = ok (is_signature value)
  value_is_valid u32 key_data value = ok (length value == 4)
  value_is_valid version key_data value =
      if length value == 4 && not (bytes_eq value (0 ∷ 0 ∷ 0 ∷ 0 ∷ []))
      then err malformed
      else ok (length value == 4)
  value_is_valid key_origin key_data value = ok (is_key_origin value)
  value_is_valid xpub_key_origin key_data value =
      ok (is_key_origin value && is_depth key_data value)
  value_is_valid witness_stack key_data value = ok (is_ok (read_witness_stack value))
  value_is_valid (preimage kind) key_data value =
      if bytes_eq (hash_of kind value) key_data then ok true else err malformed

  unfoldable pub check_value : Field → Bytes → Bytes → Result (Unit {0})
  unfolding value_is_valid
  check_value field key_data value =
      Error.◌>>=◌ (value_is_valid field.value key_data value) λ valid. guard valid malformed

  -- `matches!((scope, key_type), (Input | Global, 0x09))`
  is_message_field : Scope → ℕ → Bool
  is_message_field Scope.output key_type = false
  is_message_field _ key_type = key_type == 0x09

  check_known : Option Field → Bytes → Bytes → Result (Unit {0})
  unfolding check_value key_is_valid
  check_known none key_data value = ok tt
  check_known (some field) key_data value =
      if key_is_valid field.key key_data then check_value field key_data value else err malformed

  unfoldable pub check_pair : Scope → ℕ → Bytes → Bytes → Result (Unit {0})
  unfolding is_message_field check_known lookup
  check_pair scope key_type key_data value =
      if is_version_2_only scope key_type
      then err malformed
      else if is_message_field scope key_type
      then err malformed
      else check_known (lookup scope key_type) key_data value
