-- ===== src/Crypto/Bit.antt =====
-- crates/crypto/src/bit.rs. The three values that `random_felt` draws for a proof are `BitCoins`:
-- those of the simulated branch, then `k`.
pub mod Accepting
pub mod Producing
use krusty_kms.Prelude.{ℕ, List, [], ◌∷◌, Bool, true, false, ◌==◌, if◌then◌else◌}
use krusty_kms.Common.Error.{Result, ok, err, crypto_error, ◌>>=◌}
use krusty_kms.Crypto.Scalar.{scalar_add, scalar_sub, scalar_mul}
use krusty_kms.Crypto.Curve.{Curve, SerializablePoint, mul, try_from_projective, load, negate}
use krusty_kms.Crypto.Hash.{compute_poseidon_challenge}
use krusty_kms.Crypto.Poe.{verify_internal}

pub record ProofOfBit : Type 0 where
  pub a0 : SerializablePoint
  pub a1 : SerializablePoint
  pub c0 : ℕ
  pub s0 : ℕ
  pub s1 : ℕ

pub record BitCoins : Type 0 where
  pub s : ℕ
  pub c : ℕ
  pub k : ℕ

module _ (curve : Curve) where
  open curve use {Point, add}

  -- `A = gen^s - y^c`
  unfoldable pub simulate_poe : Point → Point → ℕ → ℕ → Result Point
  simulate_poe y gen s c = do
    neg_y_c ← negate curve crypto_error (mul curve c y)
    ok (add (mul curve s gen) neg_y_c)

  unfoldable pub prove_bit_0 : ℕ → Point → Point → ℕ → BitCoins → Result (Point × ProofOfBit)
  prove_bit_0 random g1 g2 prefix coins =
      let v = mul curve random g2 in
      let a0 = mul curve coins.k g2 in
      do
        neg_g1 ← negate curve crypto_error g1
        a1 ← simulate_poe (add v neg_g1) g2 coins.s coins.c
        c ← compute_poseidon_challenge curve prefix (v ∷ (a0 ∷ (a1 ∷ [])))
        let c0 = scalar_sub c coins.c
        let s0 = scalar_add coins.k (scalar_mul c0 random)
        sent0 ← try_from_projective curve a0
        sent1 ← try_from_projective curve a1
        ok (v, record { a0 = sent0; a1 = sent1; c0 = c0; s0 = s0; s1 = coins.s })

  unfoldable pub prove_bit_1 : ℕ → Point → Point → ℕ → BitCoins → Result (Point × ProofOfBit)
  prove_bit_1 random g1 g2 prefix coins =
      let v = add g1 (mul curve random g2) in
      let a1 = mul curve coins.k g2 in
      do
        a0 ← simulate_poe v g2 coins.s coins.c
        c ← compute_poseidon_challenge curve prefix (v ∷ (a0 ∷ (a1 ∷ [])))
        let c1 = scalar_sub c coins.c
        let s1 = scalar_add coins.k (scalar_mul c1 random)
        sent0 ← try_from_projective curve a0
        sent1 ← try_from_projective curve a1
        ok (v, record { a0 = sent0; a1 = sent1; c0 = coins.c; s0 = coins.s; s1 = s1 })

  unfoldable pub prove_bit : ℕ → ℕ → Point → Point → ℕ → BitCoins → Result (Point × ProofOfBit)
  prove_bit bit random g1 g2 prefix coins =
      if bit == 0
      then prove_bit_0 random g1 g2 prefix coins
      else if bit == 1
      then prove_bit_1 random g1 g2 prefix coins
      else err crypto_error

  unfoldable pub verify_second : Point → Point → Point → Point → ℕ → ℕ → Result Bool
  verify_second v g1 g2 a1 c1 s1 = do
    neg_g1 ← negate curve crypto_error g1
    verify_internal curve (add v neg_g1) g2 a1 c1 s1

  unfoldable pub verify_bit : Point → Point → Point → ProofOfBit → ℕ → Result Bool
  verify_bit v g1 g2 proof prefix = do
    a0 ← load curve proof.a0
    a1 ← load curve proof.a1
    c ← compute_poseidon_challenge curve prefix (v ∷ (a0 ∷ (a1 ∷ [])))
    first ← verify_internal curve v g2 a0 proof.c0 proof.s0
    if first then verify_second v g1 g2 a1 (scalar_sub c proof.c0) proof.s1 else ok false
