-- ===== src/Crypto/Elgamal.antt =====
-- crates/crypto/src/elgamal.rs. The two values that `random_felt` draws are arguments.
pub mod Accepting
pub mod Decrypting
use krusty_kms.Prelude.{ℕ, zero, suc, ◌+◌, List, [], ◌∷◌, Bool, true, false, ◌==◌, if◌then◌else◌}
use krusty_kms.Common.Error.{Result, ok, err, invalid_public_key, crypto_error, ◌>>=◌}
use krusty_kms.Crypto.Scalar.{scalar_add, scalar_mul}
use krusty_kms.Crypto.Curve.{
  Curve, SerializablePoint, mul, try_from_projective, load, same_affine, is_infinity, negate,
  projective_to_affine, same_coordinates,
}
use krusty_kms.Crypto.Hash.{compute_challenge}

pub record ElGamalProof : Type 0 where
  pub al : SerializablePoint
  pub ar : SerializablePoint
  pub sb : ℕ
  pub sr : ℕ
  pub c : ℕ

pub data Transcript : Type 0 where
  legacy strong : Transcript

pub record ElGamalCiphertext (Point : Type 0) : Type 0 where
  pub l : Point
  pub r : Point

pub record ElGamalEncryption (Point : Type 0) : Type 0 where
  pub l : Point
  pub r : Point
  pub proof : ElGamalProof

module _ (curve : Curve) where
  open curve use {Point, add, generator}

  -- The points that the challenge binds.
  abbrev pub bound : Transcript → Point → Point → Point → Point → Point → List Point
  bound legacy public_key l r a_l a_r = l ∷ (r ∷ (a_l ∷ []))
  bound strong public_key l r a_l a_r = public_key ∷ (l ∷ (r ∷ (a_l ∷ (a_r ∷ []))))

  unfoldable pub challenge : Transcript → ℕ → Point → Point → Point → Point → Point → Result ℕ
  challenge transcript prefix public_key l r a_l a_r =
      compute_challenge curve prefix (bound transcript public_key l r a_l a_r)

  unfoldable pub prove_encryption :
      ℕ → ℕ → Point → Point → Point → ℕ → Transcript → ℕ → ℕ → Result ElGamalProof
  prove_encryption message random public_key l r prefix transcript r_b r_r =
      let a_l = add (mul curve r_b generator) (mul curve r_r public_key) in
      let a_r = mul curve r_r generator in
      do
        c ← challenge transcript prefix public_key l r a_l a_r
        let s_b = scalar_add r_b (scalar_mul c message)
        let s_r = scalar_add r_r (scalar_mul c random)
        al ← try_from_projective curve a_l
        ar ← try_from_projective curve a_r
        ok (record { al = al; ar = ar; sb = s_b; sr = s_r; c = c })

  unfoldable pub encrypt_with_transcript :
      ℕ → Point → ℕ → ℕ → Transcript → ℕ → ℕ → Result (ElGamalEncryption Point)
  encrypt_with_transcript message public_key random prefix transcript r_b r_r =
      let l = add (mul curve message generator) (mul curve random public_key) in
      let r = mul curve random generator in
      do
        proof ← prove_encryption message random public_key l r prefix transcript r_b r_r
        ok (record { l = l; r = r; proof = proof })

  -- Both equations: `g^sr = AR * R^c`, then `g^sb * pk^sr = AL * L^c`.
  unfoldable pub check_equations :
      Point → Point → Point → ElGamalProof → Point → Point → Result Bool
  check_equations l r public_key proof a_l a_r = do
    first ← same_affine curve (mul curve proof.sr generator) (add a_r (mul curve proof.c r))
    if first
        then same_affine curve (add (mul curve proof.sb generator) (mul curve proof.sr public_key))
            (add a_l (mul curve proof.c l))
        else ok false

  unfoldable pub verify_inner : Point → Point → Point → ElGamalProof → ℕ → Transcript → Result Bool
  verify_inner l r public_key proof prefix transcript = do
    a_l ← load curve proof.al
    a_r ← load curve proof.ar
    c_computed ← challenge transcript prefix public_key l r a_l a_r
    if proof.c == c_computed then check_equations l r public_key proof a_l a_r else ok false

  unfoldable pub decrypt : ElGamalCiphertext Point → ℕ → Result Point
  decrypt ciphertext private_key =
      let r_sk = mul curve private_key ciphertext.r in
      let subtracted =
        negate curve invalid_public_key r_sk >>= (λ neg_r_sk. ok (add ciphertext.l neg_r_sk)) in
      if is_infinity curve r_sk then ok ciphertext.l else subtracted

  -- `value` from its first value on, with the rounds that are left.
  unfoldable pub search_log : ℕ → ℕ → Point → ℕ × ℕ → Result ℕ
  search_log zero value current target = err crypto_error
  search_log (suc rounds) value current target = do
    xy ← projective_to_affine curve current
    let rest = search_log rounds (value + 1) (add current generator) target
    if same_coordinates curve xy target then ok value else rest

  unfoldable pub recover_small_discrete_log : Point → ℕ → Result ℕ
  recover_small_discrete_log point max_search =
      let searched = projective_to_affine curve point >>= search_log max_search 1 generator in
      if is_infinity curve point then ok 0 else searched

  unfoldable pub decrypt_balance_with_limit : ElGamalCiphertext Point → ℕ → ℕ → Result ℕ
  decrypt_balance_with_limit ciphertext private_key max_search = do
    message_point ← decrypt ciphertext private_key
    recover_small_discrete_log message_point max_search
