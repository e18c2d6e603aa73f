-- ===== src/Crypto/Elgamal/Accepting.antt =====
-- Which proofs of encryption crates/crypto/src/elgamal.rs accepts.
use krusty_kms.Prelude.{
  ℕ, ◌≡◌, refl, sym, ap₂, ◌∙◌, [], ◌∷◌, true, ◌≢◌, eq→==, subst, ◌⊎◌, inl, inr,
}
use krusty_kms.Common.Error.{ok, ◌>>=◌}
use krusty_kms.Crypto.Scalar.{IsFelt, scalar_add, scalar_mul, scalar_add-IsFelt}
use krusty_kms.Crypto.Curve.{Curve, IsGroup, multiple, mul, try_from_projective, SerializablePoint}
use krusty_kms.Crypto.Curve.Group.{multiple-response}
use krusty_kms.Crypto.Curve.Multiplication.{mul-multiple}
use krusty_kms.Crypto.Curve.Affine.{
  Visible, Visible-or-identity, try_from_projective_total, ne_identity-Visible,
  load-try_from_projective,
}
use krusty_kms.Crypto.Hash.{compute_challenge_total, compute_challenge-IsFelt}
use krusty_kms.Crypto.Poe.{verify_internal}
use krusty_kms.Crypto.Poe.Accepting.{verify_internal-true}
use krusty_kms.Crypto.Poe2.{mul_pair, verify_pair}
use krusty_kms.Crypto.Poe2.Accepting.{
  multiple_pair, mul_pair-multiple_pair, response_pair, verify_pair-true,
}
use krusty_kms.Crypto.Elgamal.{
  ElGamalProof, ElGamalEncryption, Transcript, legacy, strong, challenge, prove_encryption,
  encrypt_with_transcript, check_equations, verify_inner,
}

module _ (c : Curve) (laws : IsGroup c) where
  open c use {Point, identity, add, generator}

  challenge-IsFelt :
      (transcript : Transcript) (prefix : ℕ) (pk l r a_l a_r : Point) {e : ℕ}
      → challenge c transcript prefix pk l r a_l a_r ≡ ok e
      → IsFelt e
  unfolding challenge
  challenge-IsFelt legacy prefix pk l r a_l a_r h =
      compute_challenge-IsFelt c laws prefix l (r ∷ (a_l ∷ [])) h
  challenge-IsFelt strong prefix pk l r a_l a_r h =
      compute_challenge-IsFelt c laws prefix pk (l ∷ (r ∷ (a_l ∷ (a_r ∷ [])))) h

  challenge_total :
      (transcript : Transcript) (prefix : ℕ) (pk l r a_l a_r : Point)
      → Visible c pk
      → Visible c l
      → Visible c r
      → Visible c a_l
      → Visible c a_r
      → (e : ℕ) × (challenge c transcript prefix pk l r a_l a_r ≡ ok e)
  unfolding challenge
  challenge_total legacy prefix pk l r a_l a_r hp hl hr hal har =
      compute_challenge_total c prefix (l ∷ (r ∷ (a_l ∷ []))) (hl, (hr, (hal, tt)))
  challenge_total strong prefix pk l r a_l a_r hp hl hr hal har =
      compute_challenge_total c prefix (pk ∷ (l ∷ (r ∷ (a_l ∷ (a_r ∷ [])))))
        (hp, (hl, (hr, (hal, (har, tt)))))

  moved : {p q : Point} → p ≡ q → q ≢ identity → Visible c p
  moved e h = subst (Visible c) (sym e) (ne_identity-Visible c laws _ h)

  -- The multiples by the responses, which have to be finite.
  abbrev pub IsDegenerate : Point → ElGamalProof → Type 0
  IsDegenerate pk proof =
      (multiple c proof.sr generator ≡ identity)
      ⊎ (multiple_pair c proof.sb generator proof.sr pk ≡ identity)

  module _ (m random r_b r_r : ℕ) (pk : Point) (hm : IsFelt m) (hr : IsFelt random)
      (hb : IsFelt r_b) (hrr : IsFelt r_r) where
    equations_hold :
        (e : ℕ) (al ar : SerializablePoint)
        → IsFelt e
        → Visible c (multiple c (scalar_add r_r (scalar_mul e random)) generator)
        → Visible c (
            multiple_pair c
              (scalar_add r_b (scalar_mul e m))
              generator
              (scalar_add r_r (scalar_mul e random))
              pk)
        → check_equations c
            (mul_pair c m generator random pk)
            (mul c random generator)
            pk
            (record {
              al = al;
              ar = ar;
              sb = scalar_add r_b (scalar_mul e m);
              sr = scalar_add r_r (scalar_mul e random);
              c = e;
            })
            (mul_pair c r_b generator r_r pk)
            (mul c r_r generator)
          ≡ ok true
    unfolding check_equations verify_internal verify_pair ◌>>=◌
    equations_hold e al ar he seen seen_pair =
        let sb = scalar_add r_b (scalar_mul e m) in
        let sr = scalar_add r_r (scalar_mul e random) in
        let hsb = scalar_add-IsFelt r_b (scalar_mul e m) in
        let hsr = scalar_add-IsFelt r_r (scalar_mul e random) in
        let l = mul_pair c m generator random pk in
        let r = mul c random generator in
        let a_l = mul_pair c r_b generator r_r pk in
        let a_r = mul c r_r generator in
        let first : multiple c sr generator ≡ add a_r (multiple c e r) =
          multiple-response c laws r_r e random generator
          ∙ ap₂ (λ p q. add p (multiple c e q)) (sym (mul-multiple c laws r_r generator hrr))
              (sym (mul-multiple c laws random generator hr)) in
        let second : multiple_pair c sb generator sr pk ≡ add a_l (multiple c e l) =
          response_pair c laws r_b r_r e m random generator pk
          ∙ ap₂ (λ p q. add p (multiple c e q))
              (sym (mul_pair-multiple_pair c laws r_b generator r_r pk hb hrr))
              (sym (mul_pair-multiple_pair c laws m generator random pk hm hr)) in
        rw (verify_internal-true c laws r generator a_r e sr he hsr first seen)
          (verify_pair-true c laws l generator pk a_l e sb sr he hsb hsr second seen_pair)

    module _ (transcript : Transcript) (prefix : ℕ) where
      accepted :
          (e : ℕ) {al ar : SerializablePoint}
          → challenge c transcript prefix pk
              (mul_pair c m generator random pk)
              (mul c random generator)
              (mul_pair c r_b generator r_r pk)
              (mul c r_r generator)
            ≡ ok e
          → try_from_projective c (mul_pair c r_b generator r_r pk) ≡ ok al
          → try_from_projective c (mul c r_r generator) ≡ ok ar
          → Visible c (multiple c (scalar_add r_r (scalar_mul e random)) generator)
          → Visible c (
              multiple_pair c
                (scalar_add r_b (scalar_mul e m))
                generator
                (scalar_add r_r (scalar_mul e random))
                pk)
          → verify_inner c
              (mul_pair c m generator random pk)
              (mul c random generator)
              pk
              (record {
                al = al;
                ar = ar;
                sb = scalar_add r_b (scalar_mul e m);
                sr = scalar_add r_r (scalar_mul e random);
                c = e;
              })
              prefix
              transcript
            ≡ ok true
      unfolding verify_inner ◌>>=◌
      accepted e {al} {ar} challenged left right seen seen_pair =
          let he = challenge-IsFelt transcript prefix pk _ _ _ _ challenged in
          rw
            (
              load-try_from_projective c laws _ left,
              load-try_from_projective c laws _ right,
              challenged,
              eq→== e e refl,
            )
            (equations_hold e al ar he seen seen_pair)

      -- For felts and a public key whose ciphertext and commitments are finite, encryption returns
      -- the ciphertext of the message with a proof, which verification accepts under the same
      -- transcript and prefix, unless a multiple by its responses is the point at infinity.
      pub encrypt-verify_inner :
          pk ≢ identity
          → multiple_pair c m generator random pk ≢ identity
          → multiple c random generator ≢ identity
          → multiple_pair c r_b generator r_r pk ≢ identity
          → multiple c r_r generator ≢ identity
          → (e : ElGamalEncryption Point) × (encrypt_with_transcript c m pk random prefix transcript
                r_b r_r
              ≡ ok e)
            × (e.l ≡ multiple_pair c m generator random pk)
            × (e.r ≡ multiple c random generator)
            × ((verify_inner c e.l e.r pk e.proof prefix transcript ≡ ok true)
                ⊎ IsDegenerate pk e.proof)
      unfolding encrypt_with_transcript prove_encryption ◌>>=◌
      encrypt-verify_inner hpk hl hlr hal har =
          let same_l = mul_pair-multiple_pair c laws m generator random pk hm hr in
          let same_r = mul-multiple c laws random generator hr in
          let same_al = mul_pair-multiple_pair c laws r_b generator r_r pk hb hrr in
          let same_ar = mul-multiple c laws r_r generator hrr in
          let v_al = moved same_al hal in
          let v_ar = moved same_ar har in
          let (e, challenged) =
            challenge_total transcript prefix pk _ _ _ _ (ne_identity-Visible c laws pk hpk)
              (moved same_l hl) (moved same_r hlr) v_al v_ar in
          let (al, left) = try_from_projective_total c _ v_al in
          let (ar, right) = try_from_projective_total c _ v_ar in
          let sb = scalar_add r_b (scalar_mul e m) in
          let sr = scalar_add r_r (scalar_mul e random) in
          (
            record {
              l = mul_pair c m generator random pk;
              r = mul c random generator;
              proof = record { al = al; ar = ar; sb = sb; sr = sr; c = e };
            },
            rw (challenged, left, right) refl,
            same_l,
            same_r,
            elim (Visible-or-identity c laws (multiple c sr generator)) [
              | inl seen ↦ elim (Visible-or-identity c laws (multiple_pair c sb generator sr pk)) [
                | inl seen_pair ↦ inl (accepted e challenged left right seen seen_pair)
                | inr hidden ↦ inr (inr hidden)
              ]
              | inr hidden ↦ inr (inl hidden)
            ],
          )
