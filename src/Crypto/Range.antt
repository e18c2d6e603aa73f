-- ===== src/Crypto/Range.antt =====
-- crates/crypto/src/range.rs. `coins` has the values that the proof of each bit draws; the proofs are
-- made in order, as without the feature `parallel`.
pub mod Stepping
pub mod Accepting
pub mod Producing
use krusty_kms.Prelude.{
  ℕ, zero, suc, ◌-◌, ◌/◌, ◌%◌, ◌^◌, List, [], ◌∷◌, Option, none, some, Bool, true, false, ◌&&◌,
  ◌==◌, leb, if◌then◌else◌, length,
}
use krusty_kms.Common.Error.{Result, ok, err, crypto_error, guard, ◌>>=◌, ◌>>◌}
use krusty_kms.Crypto.Scalar.{felt_add, scalar_add, scalar_mul}
use krusty_kms.Crypto.Curve.{Curve, SerializablePoint, mul, try_from_projective, load}
use krusty_kms.Crypto.Bit.{ProofOfBit, BitCoins, prove_bit, verify_bit}

pub record Range : Type 0 where
  pub commitments : List SerializablePoint
  pub proofs : List ProofOfBit

-- `random_values` from the bit `i` on, with the sum so far.
unfoldable pub add_randomness : ℕ → ℕ → List ℕ → ℕ
add_randomness i r [] = r
add_randomness i r (r_inn ∷ random_values) =
    add_randomness (suc i) (scalar_add r (scalar_mul (2 ^ i) r_inn)) random_values

unfoldable pub compute_total_randomness : List ℕ → Result ℕ
compute_total_randomness random_values = do
  guard (leb (length random_values) 128) crypto_error
  ok (add_randomness 0 0 random_values)

-- `b_bin`: the lowest bits, `b >> i` by halving.
unfoldable pub bits : ℕ → ℕ → List ℕ
bits zero b = []
bits (suc n) b = (b % 2) ∷ bits n (b / 2)

abbrev pub max_value : ℕ → ℕ
max_value bit_size = if bit_size == 128 then 2 ^ 128 - 1 else 2 ^ bit_size - 1

-- A commitment with its proof, and the randomness that it has.
abbrev pub BitResult : Type 0 → Type 0
BitResult Point = Point × ProofOfBit × ℕ

abbrev pub push : SerializablePoint → ProofOfBit → Range × ℕ → Range × ℕ
push commitment proof (range, r) =
    (record { commitments = commitment ∷ range.commitments; proofs = proof ∷ range.proofs }, r)

-- `1u128 << i`, in a build without overflow checks: a shift by the width or more wraps around.
abbrev pub bit_weight : ℕ → ℕ
bit_weight i = 2 ^ (i % 128)

module _ (curve : Curve) (g1 g2 : curve.Point) (initial_prefix : ℕ) where
  open curve use {Point, add}

  -- The proofs of the bits from the bit `i` on. The lists have one length.
  unfoldable pub prove_bits : (ℕ → BitCoins) → ℕ → List ℕ → List ℕ → Result (List (BitResult Point))
  prove_bits coins i [] random_values = ok []
  prove_bits coins i (bit ∷ b_bin) [] = ok []
  prove_bits coins i (bit ∷ b_bin) (r_inn ∷ random_values) = do
    proved ← prove_bit curve bit r_inn g1 g2 (felt_add initial_prefix i) (coins i)
    rest ← prove_bits coins (suc i) b_bin random_values
    ok ((proved.0, proved.1, r_inn) ∷ rest)

  unfoldable pub accumulate : ℕ → ℕ → List (BitResult Point) → Result (Range × ℕ)
  accumulate i r [] = ok (record { commitments = []; proofs = [] }, r)
  accumulate i r ((v, proof, r_inn) ∷ results) = do
    commitment ← try_from_projective curve v
    rest ← accumulate (suc i) (scalar_add r (scalar_mul (2 ^ i) r_inn)) results
    ok (push commitment proof rest)

  unfoldable pub prove_with_randomness : (ℕ → BitCoins) → ℕ → ℕ → List ℕ → Result (Range × ℕ)
  prove_with_randomness coins b bit_size random_values = do
    guard (leb bit_size 128) crypto_error
    guard (length random_values == bit_size) crypto_error
    guard (leb b (max_value bit_size)) crypto_error
    results ← prove_bits coins 0 (bits bit_size b) random_values
    accumulate 0 0 results

  -- The bits from the bit `i` on. The lists have one length.
  unfoldable pub verify_rest : ℕ → Point → List SerializablePoint → List ProofOfBit → Result Point
  verify_rest i v_total [] proofs = ok v_total
  verify_rest i v_total (commitment ∷ commitments) [] = ok v_total
  verify_rest i v_total (commitment ∷ commitments) (proof ∷ proofs) = do
    v ← load curve commitment
    valid ← verify_bit curve v g1 g2 proof (felt_add initial_prefix i)
    guard valid crypto_error
    verify_rest (suc i) (add v_total (mul curve (bit_weight i) v)) commitments proofs

  -- `none`: the first commitment or proof is read from an empty list, which panics.
  unfoldable pub verify_all : List SerializablePoint → List ProofOfBit → Option (Result Point)
  verify_all [] proofs = none
  verify_all (commitment ∷ commitments) [] = none
  verify_all (commitment ∷ commitments) (proof ∷ proofs) = some (do
    v0 ← load curve commitment
    valid ← verify_bit curve v0 g1 g2 proof initial_prefix
    guard valid crypto_error
    verify_rest 1 v0 commitments proofs)

  unfoldable pub verify_range : Range → ℕ → Option (Result Point)
  verify_range range bit_size =
      if length range.commitments == bit_size && length range.proofs == bit_size
      then verify_all range.commitments range.proofs
      else some (err crypto_error)
