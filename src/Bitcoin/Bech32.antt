-- ===== src/Bitcoin/Bech32.antt =====
-- crates/kms/src/bitcoin/bech32.rs: addresses of segwit version 0. Text is its bytes.
pub mod Total
use Prim.Native.Nat.{bit_xor, bit_or}
use krusty_kms.Prelude.{
  ℕ, zero, suc, ◌+◌, ◌-◌, ◌*◌, ◌/◌, ◌%◌, ◌^◌, Bytes, List, [], ◌∷◌, ◌++◌, ltb, leb, ◌==◌,
  if◌then◌else◌, get_elem?,
}
use krusty_kms.Common.Error.{Result, ok, ok_or, crypto_error, ◌>>=◌}

-- `b"qpzry9x8gf2tvdw0s3jn54khce6mua7l"`
abbrev pub charset : Bytes
charset =
    b'q' ∷ b'p' ∷ b'z' ∷ b'r' ∷ b'y' ∷ b'9' ∷ b'x' ∷ b'8' ∷ b'g' ∷ b'f' ∷ b'2' ∷ b't' ∷ b'v' ∷ b'd'
    ∷ b'w' ∷ b'0' ∷ b's' ∷ b'3' ∷ b'j' ∷ b'n' ∷ b'5' ∷ b'4' ∷ b'k' ∷ b'h' ∷ b'c' ∷ b'e' ∷ b'6'
    ∷ b'm' ∷ b'u' ∷ b'a' ∷ b'7' ∷ b'l' ∷ []

abbrev pub generators : List ℕ
generators = 0x3b6a_57b2 ∷ 0x2650_8e6d ∷ 0x1ea1_19fa ∷ 0x3d42_33dd ∷ 0x2a14_62b3 ∷ []

abbrev pub bech32_const : ℕ
bech32_const = 1

-- `<<` and `>>` on `u32`.
abbrev pub shl : ℕ → ℕ → ℕ
shl a n = a * 2 ^ n % 2 ^ 32

abbrev pub shr : ℕ → ℕ → ℕ
shr a n = a / 2 ^ n

-- The generators from the `i`-th on, each taken if its bit of `top` is set.
unfoldable pub apply_generators : List ℕ → ℕ → ℕ → ℕ → ℕ
apply_generators [] i top chk = chk
apply_generators (generator ∷ rest) i top chk =
    let chk' = if shr top i % 2 == 1 then bit_xor chk generator else chk in
    apply_generators rest (i + 1) top chk'

-- The loop of `polymod`, from `chk` on.
unfoldable pub polymod_from : Bytes → ℕ → ℕ
polymod_from [] chk = chk
polymod_from (value ∷ values) chk =
    let shifted = bit_xor (shl (chk % 2 ^ 25) 5) value in
    polymod_from values (apply_generators generators 0 (shr chk 25) shifted)

unfoldable pub polymod : Bytes → ℕ
polymod values = polymod_from values 1

-- `hrp.iter().map(|c| c >> 5)`, `hrp.iter().map(|c| c & 0x1f)`
unfoldable pub high_bits : Bytes → Bytes
high_bits [] = []
high_bits (c ∷ hrp) = shr c 5 ∷ high_bits hrp

unfoldable pub low_bits : Bytes → Bytes
low_bits [] = []
low_bits (c ∷ hrp) = c % 32 ∷ low_bits hrp

-- The last `n` of the six checksum values.
unfoldable pub checksum_values : ℕ → ℕ → Bytes
checksum_values zero modulus = []
checksum_values (suc n) modulus = shr modulus (5 * n) % 32 ∷ checksum_values n modulus

unfoldable pub checksum : Bytes → Bytes → Bytes
checksum hrp data' =
    let values = high_bits hrp ++ (0 ∷ (low_bits hrp ++ (data' ++ (0 ∷ 0 ∷ 0 ∷ 0 ∷ 0 ∷ 0 ∷ [])))) in
    checksum_values 6 (bit_xor (polymod values) bech32_const)

-- `while bits >= 5`: the groups pushed, and the bits left. Each round takes five bits, so `bits` rounds
-- are enough.
unfoldable pub drain : ℕ → ℕ → ℕ → Bytes × ℕ
drain zero accumulator bits = ([], bits)
drain (suc fuel) accumulator bits =
    let (groups, left) = drain fuel accumulator (bits - 5) in
    if leb 5 bits then (shr accumulator (bits - 5) % 32 ∷ groups, left) else ([], bits)

-- The loop of `to_base32`, with its last group.
unfoldable pub regroup : Bytes → ℕ → ℕ → Bytes
regroup [] accumulator bits = if ltb 0 bits then shl accumulator (5 - bits) % 32 ∷ [] else []
regroup (byte ∷ bytes) accumulator bits =
    let accumulator' = bit_or (shl accumulator 8) byte % 2 ^ 12 in
    let (groups, left) = drain (bits + 8) accumulator' (bits + 8) in
    groups ++ regroup bytes accumulator' left

unfoldable pub to_base32 : Bytes → Bytes
to_base32 bytes = regroup bytes 0 0

unfoldable pub characters : Bytes → Result Bytes
characters [] = ok []
characters (value ∷ values) = do
  character ← ok_or (get_elem? charset value) crypto_error
  rest ← characters values
  ok (character ∷ rest)

unfoldable pub encode_segwit_v0 : Bytes → Bytes → Result Bytes
encode_segwit_v0 hrp program = do
  let data' = 0 ∷ to_base32 program
  text ← characters (data' ++ checksum hrp data')
  ok (hrp ++ (b'1' ∷ text))
