-- ===== src/Bitcoin/Reader/Writes.antt =====
-- What the writers of crates/kms/src/bitcoin/tx.rs push, as input of `Reader`.
use krusty_kms.Prelude.{
  ℕ, ◌^◌, ◌≤◌, ◌<◌, ◌≡◌, refl, Bytes, [], ◌∷◌, ◌++◌, some, leb, length, length-append,
  from_le_bytes, to_le_bytes, from_le_bytes-to_le_bytes, length-to_le_bytes, arith, Bool-cases, inl,
  inr,
}
use krusty_kms.Bitcoin.Parse.{Parse, pure, ◌>>=◌}
use krusty_kms.Bitcoin.Parse.Rules.{Accepts, Accepts-bind, Accepts-then, Accepts-last}
use krusty_kms.Bitcoin.Reader.{
  split_at_checked, take, u16_le, u32_le, u64_le, canonical, compact_tag, compact_u64,
  write_compact_size, write_var_bytes, fit_usize, compact_size, var_bytes,
}
use krusty_kms.Bitcoin.Reader.Reads.{IsWord, IsSize, IsVarBytes}

pub split_at_checked-append :
    (head tail : Bytes) → split_at_checked (length head) (head ++ tail) ≡ some (head, tail)
unfolding split_at_checked
split_at_checked-append [] tail = refl
split_at_checked-append (x ∷ head) tail = ground (arith, split_at_checked-append head tail)

pub take-Accepts : (a : Bytes) → Accepts (take (length a)) a a
unfolding take
take-Accepts a = record { on = λ rest. rw split_at_checked-append refl }

pub take-Accepts-length : (n : ℕ) (a : Bytes) → length a ≡ n → Accepts (take n) a a
take-Accepts-length n a h = rw (← h) (take-Accepts a)

word-Accepts :
    (n v : ℕ)
    → IsWord n v
    → Accepts (take n >>= λ bytes. pure (from_le_bytes bytes)) (to_le_bytes n v) v
word-Accepts n v h =
    rw (from_le_bytes-to_le_bytes n v h) at (
      Accepts-last from_le_bytes (take-Accepts-length n (to_le_bytes n v) (length-to_le_bytes n v)))

pub u16_le-Accepts : (v : ℕ) → IsWord 2 v → Accepts u16_le (to_le_bytes 2 v) v
unfolding u16_le
u16_le-Accepts = word-Accepts 2

pub u32_le-Accepts : (v : ℕ) → IsWord 4 v → Accepts u32_le (to_le_bytes 4 v) v
unfolding u32_le
u32_le-Accepts = word-Accepts 4

pub u64_le-Accepts : (v : ℕ) → IsWord 8 v → Accepts u64_le (to_le_bytes 8 v) v
unfolding u64_le
u64_le-Accepts = word-Accepts 8

canonical-eq-pure : (minimum v : ℕ) → minimum ≤ v → canonical minimum v ≡ pure v
unfolding canonical
canonical-eq-pure minimum v h = ground arith

fit_usize-eq-pure : (usize_max v : ℕ) → v ≤ usize_max → fit_usize usize_max v ≡ pure v
unfolding fit_usize
fit_usize-eq-pure usize_max v h = ground arith

tagged-Accepts :
    (tag n minimum v : ℕ) {word : Parse ℕ}
    → Accepts word (to_le_bytes n v) v
    → minimum ≤ v
    → compact_tag tag ≡ (word >>= canonical minimum)
    → Accepts compact_u64 (tag ∷ to_le_bytes n v) v
unfolding compact_u64
tagged-Accepts tag n minimum v hw big e =
    Accepts-bind _ {c = tag ∷ []} (take-Accepts (tag ∷ []))
      (rw e (Accepts-then _ hw (canonical-eq-pure minimum v big)))

small_tag : (v : ℕ) → v ≤ 0xfc → compact_tag v ≡ pure v
unfolding compact_tag
small_tag v h = ground arith

tag_fd : compact_tag 0xfd ≡ (u16_le >>= canonical 0xfd)
unfolding compact_tag
tag_fd = refl

tag_fe : compact_tag 0xfe ≡ (u32_le >>= canonical 0x1_0000)
unfolding compact_tag
tag_fe = refl

tag_ff : compact_tag 0xff ≡ (u64_le >>= canonical 0x1_0000_0000)
unfolding compact_tag
tag_ff = refl

-- Every 64-bit number is read back from its CompactSize.
pub compact_u64-Accepts : (v : ℕ) → v < 2 ^ 64 → Accepts compact_u64 (write_compact_size v) v
unfolding write_compact_size compact_u64
compact_u64-Accepts v h = elim (Bool-cases (leb v 0xfc)) [
  | inl e ↦ rw e (Accepts-then _ (take-Accepts (v ∷ [])) (small_tag v (ground arith)))
  | inr e1 ↦ rw e1 (elim (Bool-cases (leb v 0xffff)) [
    | inl e ↦
        rw e (tagged-Accepts 0xfd 2 0xfd v (u16_le-Accepts v (ground arith)) (ground arith) tag_fd)
    | inr e2 ↦ rw e2 (elim (Bool-cases (leb v 0xffff_ffff)) [
      | inl e ↦
          rw e (
            tagged-Accepts 0xfe 4 0x1_0000 v (u32_le-Accepts v (ground arith)) (ground arith)
              tag_fe)
      | inr e ↦ rw e (
          tagged-Accepts 0xff 8 0x1_0000_0000 v (u64_le-Accepts v (omega arith)) (ground arith)
            tag_ff)
    ])
  ])
]

module _ (usize_max : ℕ) where
  pub compact_size-Accepts :
      (v : ℕ) → IsSize usize_max v → Accepts (compact_size usize_max) (write_compact_size v) v
  unfolding compact_size fit_usize
  compact_size-Accepts v h =
      Accepts-then _ (compact_u64-Accepts v h.0) (fit_usize-eq-pure usize_max v h.1)

  pub var_bytes-Accepts :
      (a : Bytes) → IsVarBytes usize_max a → Accepts (var_bytes usize_max) (write_var_bytes a) a
  unfolding var_bytes write_var_bytes
  var_bytes-Accepts a h = Accepts-bind _ (compact_size-Accepts (length a) h.1) (take-Accepts a)

length-write_compact_size : (v : ℕ) → 1 ≤ length (write_compact_size v)
unfolding write_compact_size
length-write_compact_size v = ground arith

-- A length prefix takes a byte at least.
pub length-write_var_bytes : (a : Bytes) → 1 ≤ length (write_var_bytes a)
unfolding write_var_bytes
length-write_var_bytes a = rw length-append (omega (arith, length-write_compact_size (length a)))
