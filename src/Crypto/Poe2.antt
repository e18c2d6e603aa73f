-- ===== src/Crypto/Poe2.antt =====
-- crates/crypto/src/poe2.rs. The two values that `random_felt` draws are arguments.
pub mod Accepting
use krusty_kms.Prelude.{ℕ, List, [], ◌∷◌, Bool, true, false, ◌==◌, if◌then◌else◌}
use krusty_kms.Common.Error.{Result, ok, ◌>>=◌}
use krusty_kms.Crypto.Scalar.{scalar_add, scalar_mul}
use krusty_kms.Crypto.Curve.{Curve, SerializablePoint, mul, try_from_projective, load, same_affine}
use krusty_kms.Crypto.Hash.{compute_challenge}

pub record Poe2Proof : Type 0 where
  pub a : SerializablePoint
  pub s1 : ℕ
  pub s2 : ℕ
  pub c : ℕ

module _ (curve : Curve) where
  open curve use {Point, add}

  -- `g1^x1 * g2^x2`
  abbrev pub mul_pair : ℕ → Point → ℕ → Point → Point
  mul_pair x1 g1 x2 g2 = add (mul curve x1 g1) (mul curve x2 g2)

  -- `g1^s1 * g2^s2 == A + y^c`
  unfoldable pub verify_pair : Point → Point → Point → Point → ℕ → ℕ → ℕ → Result Bool
  verify_pair y g1 g2 a c s1 s2 = same_affine curve (mul_pair s1 g1 s2 g2) (add a (mul curve c y))

  unfoldable pub prove_pair : ℕ → ℕ → Point → Point → ℕ → ℕ → ℕ → Result (Point × Poe2Proof)
  prove_pair x1 x2 g1 g2 prefix k1 k2 =
      let y = mul_pair x1 g1 x2 g2 in
      let a = mul_pair k1 g1 k2 g2 in
      do
        c ← compute_challenge curve prefix (a ∷ [])
        let s1 = scalar_add k1 (scalar_mul c x1)
        let s2 = scalar_add k2 (scalar_mul c x2)
        sent ← try_from_projective curve a
        ok (y, record { a = sent; s1 = s1; s2 = s2; c = c })

  unfoldable pub verify_poe2 : Point → Point → Point → Poe2Proof → ℕ → Result Bool
  verify_poe2 y g1 g2 proof prefix = do
    a ← load curve proof.a
    c_computed ← compute_challenge curve prefix (a ∷ [])
    if proof.c == c_computed then verify_pair y g1 g2 a proof.c proof.s1 proof.s2 else ok false
