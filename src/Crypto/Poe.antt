-- ===== src/Crypto/Poe.antt =====
-- crates/crypto/src/poe.rs. The value that `random_felt` draws is an argument.
pub mod Accepting
use krusty_kms.Prelude.{ℕ, List, [], ◌∷◌, Bool, true, false, ◌==◌, if◌then◌else◌}
use krusty_kms.Common.Error.{Result, ok, ◌>>=◌}
use krusty_kms.Crypto.Scalar.{scalar_add, scalar_mul}
use krusty_kms.Crypto.Curve.{Curve, SerializablePoint, mul, try_from_projective, load, same_affine}
use krusty_kms.Crypto.Hash.{compute_poseidon_challenge}

pub record PoeProof : Type 0 where
  pub a : SerializablePoint
  pub s : ℕ
  pub c : ℕ

module _ (curve : Curve) where
  open curve use {Point, add, generator}

  -- `gen^s = A + y^c`
  unfoldable pub verify_internal : Point → Point → Point → ℕ → ℕ → Result Bool
  verify_internal y gen a c s = same_affine curve (mul curve s gen) (add a (mul curve c y))

  unfoldable pub prove : ℕ → ℕ → ℕ → Result (Point × PoeProof)
  prove x prefix r =
      let y = mul curve x generator in
      let a = mul curve r generator in
      do
        c ← compute_poseidon_challenge curve prefix (a ∷ [])
        let s = scalar_add r (scalar_mul c x)
        sent ← try_from_projective curve a
        ok (y, record { a = sent; s = s; c = c })

  unfoldable pub verify : Point → PoeProof → ℕ → Result Bool
  verify y proof prefix = do
    a ← load curve proof.a
    c_computed ← compute_poseidon_challenge curve prefix (a ∷ [])
    if proof.c == c_computed then verify_internal y generator a proof.c proof.s else ok false
