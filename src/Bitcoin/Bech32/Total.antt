-- ===== src/Bitcoin/Bech32/Total.antt =====
-- The values and lengths in `encode_segwit_v0` (crates/kms/src/bitcoin/bech32.rs).
use Prim.Native.Nat.{bit_or}
use krusty_kms.Prelude.{
  ℕ, zero, suc, ◌+◌, ◌-◌, ◌*◌, ◌/◌, ◌%◌, ◌^◌, ◌≤◌, ◌<◌, ◌≡◌, refl, ap, Bytes, [], ◌∷◌, ◌++◌, some,
  All, All-append, ltb, leb, length, length-append, get_elem?, arith, Bool-cases, inl, inr,
}
use krusty_kms.Common.Error.{ok, ◌>>=◌}
use krusty_kms.Bitcoin.Bech32.{
  charset, shl, checksum_values, checksum, drain, regroup, to_base32, characters, encode_segwit_v0,
}

abbrev pub IsFive : ℕ → Type 0
IsFive v = v < 32

get_elem?-lt : (xs : Bytes) (i : ℕ) → i < length xs → (x : ℕ) × (get_elem? xs i ≡ some x)
get_elem?-lt [] i h = absurd (omega arith)
get_elem?-lt (x ∷ xs) zero h = (x, refl)
get_elem?-lt (x ∷ xs) (suc i) h = get_elem?-lt xs i (omega arith)

characters-ok :
    (values : Bytes)
    → All IsFive values
    → (text : Bytes) × (characters values ≡ ok text) × (length text ≡ length values)
unfolding characters ◌>>=◌
characters-ok [] all = ([], refl, refl)
characters-ok (v ∷ values) (five, all) =
    let (c, found) = get_elem?-lt charset v five in
    let (text, rest, same) = characters-ok values all in
    (c ∷ text, rw (found, rest) refl, ap suc same)

checksum_values-All : (n modulus : ℕ) → All IsFive (checksum_values n modulus)
unfolding checksum_values
checksum_values-All zero modulus = tt
checksum_values-All (suc n) modulus = (omega arith, checksum_values-All n modulus)

length-checksum_values : (n modulus : ℕ) → length (checksum_values n modulus) ≡ n
unfolding checksum_values
length-checksum_values zero modulus = refl
length-checksum_values (suc n) modulus = ap suc (length-checksum_values n modulus)

-- The groups of five of `bits` bits; fewer than five bits are left.
pub record Drained (bits : ℕ) (r : Bytes × ℕ) : Type 0 where
  pub five : All IsFive r.0
  pub fewer : r.1 < 5
  pub total : 5 * length r.0 + r.1 ≡ bits

drain-Drained :
    (fuel accumulator bits : ℕ) → bits ≤ fuel → Drained bits (drain fuel accumulator bits)
unfolding drain
drain-Drained zero accumulator bits h = record {
  five = tt;
  fewer = omega arith;
  total = omega arith;
}
drain-Drained (suc fuel) accumulator bits h = elim (Bool-cases (leb 5 bits)) [
  | inl e ↦
      let d = drain-Drained fuel accumulator (bits - 5) (ground arith) in
      rw e
        (record { five = (omega arith, d.five); fewer = d.fewer; total = ground (arith, d.total) })
  | inr e ↦ rw e (record { five = tt; fewer = ground arith; total = omega arith })
]

pub record Regrouped (bytes : Bytes) (bits : ℕ) (values : Bytes) : Type 0 where
  pub five : All IsFive values
  pub count : length values ≡ (8 * length bytes + bits + 4) / 5

regroup-Regrouped :
    (bytes : Bytes) (accumulator bits : ℕ)
    → bits < 5
    → Regrouped bytes bits (regroup bytes accumulator bits)
unfolding regroup
regroup-Regrouped [] accumulator bits h = elim (Bool-cases (ltb 0 bits)) [
  | inl e ↦ rw e (record { five = (omega arith, tt); count = ground arith })
  | inr e ↦ rw e (record { five = tt; count = ground arith })
]
regroup-Regrouped (b ∷ bytes) accumulator bits h =
    let d =
      drain-Drained (bits + 8) (bit_or (shl accumulator 8) b % 2 ^ 12) (bits + 8) (omega arith) in
    let r = regroup-Regrouped bytes (bit_or (shl accumulator 8) b % 2 ^ 12) _ d.fewer in
    record {
      five = All-append IsFive _ _ d.five r.five;
      count = rw length-append (omega (arith, d.total, r.count));
    }

-- For every prefix and program an address is made, of the prefix, the separator, one value for the
-- version, the program in groups of five bits and six checksum values.
pub encode_segwit_v0-total :
    (hrp program : Bytes)
    → (address : Bytes) × (encode_segwit_v0 hrp program ≡ ok address)
      × (length address ≡ length hrp + 8 + (8 * length program + 4) / 5)
unfolding encode_segwit_v0 to_base32 checksum ◌>>=◌
encode_segwit_v0-total hrp program =
    let r = regroup-Regrouped program 0 0 (omega arith) in
    let values = 0 ∷ to_base32 program in
    let sum = checksum hrp values in
    let five : All IsFive (values ++ sum) =
      All-append IsFive values sum (omega arith, r.five) (checksum_values-All 6 _) in
    let (text, made, same) = characters-ok (values ++ sum) five in
    let six : length sum ≡ 6 = length-checksum_values 6 _ in
    (
      hrp ++ (b'1' ∷ text),
      rw made refl,
      rw length-append (omega (arith, same, six, r.count, length-append values sum)),
    )
