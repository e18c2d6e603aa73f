-- ===== src/Bitcoin/Reader.antt =====
-- `Reader` of crates/kms/src/bitcoin/tx.rs, the bounds-checked cursor, and the CompactSize writers.
-- `usize_max` is `usize::MAX` of the target.
pub mod Reads
pub mod CompactSize
pub mod Writes
use krusty_kms.Prelude.{
  ℕ, zero, suc, ◌+◌, ◌*◌, ◌^◌, ◌≤◌, ◌<◌, Bytes, List, [], ◌∷◌, ◌++◌, Bool, true, false, Option,
  none, some, ltb, leb, ◌==◌, ◌&&◌, if◌then◌else◌, length, from_le_bytes, to_le_bytes,
}
use krusty_kms.Common.Error.{KmsError, deserialization_error, ok, err, ok_or}
use krusty_kms.Bitcoin.Parse.{Parse, pure, fail, ◌>>=◌, ◌>>◌}

-- `malformed`: what the error says is dropped.
abbrev pub malformed : KmsError
malformed = deserialization_error

abbrev pub prepend {ℓ} : {A : Type ℓ} → A → Option (List A × List A) → Option (List A × List A)
prepend x none = none
prepend x (some (head, tail)) = some (x ∷ head, tail)

-- `slice::split_at_checked`
unfoldable pub split_at_checked {ℓ} : {A : Type ℓ} → ℕ → List A → Option (List A × List A)
split_at_checked zero xs = some ([], xs)
split_at_checked (suc n) [] = none
split_at_checked (suc n) (x ∷ xs) = prepend x (split_at_checked n xs)

unfoldable pub take : ℕ → Parse Bytes
unfolding split_at_checked
take len bytes = ok_or (split_at_checked len bytes) malformed

-- `array::<N>`: `take` has returned exactly N bytes.
abbrev pub array : ℕ → Parse Bytes
array n = take n

unfoldable pub u16_le : Parse ℕ
unfolding take
u16_le = do bytes ← array 2; pure (from_le_bytes bytes)

unfoldable pub u32_le : Parse ℕ
unfolding take
u32_le = do bytes ← array 4; pure (from_le_bytes bytes)

unfoldable pub u64_le : Parse ℕ
unfolding take
u64_le = do bytes ← array 8; pure (from_le_bytes bytes)

unfoldable pub starts_with : Bytes → Bytes → Bool
starts_with [] bytes = true
starts_with (p ∷ ps) [] = false
starts_with (p ∷ ps) (b ∷ bs) = (p == b) && starts_with ps bs

-- `array::<1>()?[0]`
abbrev pub first_byte : Bytes → ℕ
first_byte [] = 0
first_byte (b ∷ bs) = b

-- `if value < minimum { return Err(…) }`
canonical : ℕ → ℕ → Parse ℕ
canonical minimum value = if ltb value minimum then fail malformed else pure value

compact_tag : ℕ → Parse ℕ
unfolding canonical u16_le u32_le u64_le
compact_tag tag =
    if tag == 0xfd
    then (u16_le >>= canonical 0xfd)
    else if tag == 0xfe
    then (u32_le >>= canonical 0x1_0000)
    else if tag == 0xff
    then (u64_le >>= canonical 0x1_0000_0000)
    else pure tag

unfoldable pub compact_u64 : Parse ℕ
unfolding take compact_tag
compact_u64 = do head ← array 1; compact_tag (first_byte head)

unfoldable pub finish : Parse (Unit {0})
finish [] = ok (tt, [])
finish (b ∷ bs) = err malformed

-- The bytes that `write_compact_size` pushes.
unfoldable pub write_compact_size : ℕ → Bytes
write_compact_size value =
    if leb value 0xfc
    then value ∷ []
    else if leb value 0xffff
    then 0xfd ∷ to_le_bytes 2 value
    else if leb value 0xffff_ffff
    then 0xfe ∷ to_le_bytes 4 value
    else 0xff ∷ to_le_bytes 8 value

unfoldable pub write_var_bytes : Bytes → Bytes
unfolding write_compact_size
write_var_bytes bytes = write_compact_size (length bytes) ++ bytes

module _ (usize_max : ℕ) where
  -- `usize::try_from`
  fit_usize : ℕ → Parse ℕ
  fit_usize value = if leb value usize_max then pure value else fail malformed

  unfoldable pub compact_size : Parse ℕ
  unfolding compact_u64 fit_usize
  compact_size = compact_u64 >>= fit_usize

  unfoldable pub var_bytes : Parse Bytes
  unfolding compact_size take
  var_bytes = do len ← compact_size; take len
