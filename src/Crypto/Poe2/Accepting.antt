-- ===== src/Crypto/Poe2/Accepting.antt =====
-- Which proofs crates/crypto/src/poe2.rs accepts.
use krusty_kms.Prelude.{
  ℕ, ◌≡◌, refl, sym, ap, ap₂, ◌∙◌, [], ◌∷◌, true, ◌≢◌, eq→==, subst, ◌⊎◌, inl, inr,
}
use krusty_kms.Common.Error.{ok, ◌>>=◌}
use krusty_kms.Crypto.Scalar.{IsFelt, scalar_add, scalar_mul, scalar_add-IsFelt}
use krusty_kms.Crypto.Curve.{
  Curve, IsGroup, multiple, same_affine, try_from_projective, SerializablePoint,
}
use krusty_kms.Crypto.Curve.Group.{multiple-response, multiple-add, add_interchange}
use krusty_kms.Crypto.Curve.Multiplication.{mul-multiple}
use krusty_kms.Crypto.Curve.Affine.{
  Visible, Visible-or-identity, try_from_projective_total, ne_identity-Visible, same_affine-eq,
  load-try_from_projective,
}
use krusty_kms.Crypto.Hash.{compute_challenge, compute_challenge_total, compute_challenge-IsFelt}
use krusty_kms.Crypto.Poe2.{Poe2Proof, mul_pair, verify_pair, prove_pair, verify_poe2}

abbrev pub multiple_pair : (c : Curve) → ℕ → c.Point → ℕ → c.Point → c.Point
multiple_pair c x1 g1 x2 g2 = c.add (multiple c x1 g1) (multiple c x2 g2)

module _ (c : Curve) (laws : IsGroup c) where
  open c use {Point, identity, add}

  pub mul_pair-multiple_pair :
      (x1 : ℕ) (g1 : Point) (x2 : ℕ) (g2 : Point)
      → IsFelt x1
      → IsFelt x2
      → mul_pair c x1 g1 x2 g2 ≡ multiple_pair c x1 g1 x2 g2
  mul_pair-multiple_pair x1 g1 x2 g2 h1 h2 =
      ap₂ add (mul-multiple c laws x1 g1 h1) (mul-multiple c laws x2 g2 h2)

  pub response_pair :
      (k1 k2 e x1 x2 : ℕ) (g1 g2 : Point)
      → multiple_pair c (scalar_add k1 (scalar_mul e x1)) g1 (scalar_add k2 (scalar_mul e x2)) g2
        ≡ add (multiple_pair c k1 g1 k2 g2) (multiple c e (multiple_pair c x1 g1 x2 g2))
  response_pair k1 k2 e x1 x2 g1 g2 =
      ap₂ add (multiple-response c laws k1 e x1 g1) (multiple-response c laws k2 e x2 g2)
      ∙ add_interchange c laws (multiple c k1 g1) (multiple c e (multiple c x1 g1))
          (multiple c k2 g2) (multiple c e (multiple c x2 g2))
      ∙ ap (add (multiple_pair c k1 g1 k2 g2))
          (sym (multiple-add c laws e (multiple c x1 g1) (multiple c x2 g2)))

  pub verify_pair-true :
      (y g1 g2 a : Point) (e s1 s2 : ℕ)
      → IsFelt e
      → IsFelt s1
      → IsFelt s2
      → multiple_pair c s1 g1 s2 g2 ≡ add a (multiple c e y)
      → Visible c (multiple_pair c s1 g1 s2 g2)
      → verify_pair c y g1 g2 a e s1 s2 ≡ ok true
  unfolding verify_pair
  verify_pair-true y g1 g2 a e s1 s2 he h1 h2 holds visible =
      ap₂ (λ l r. same_affine c l (add a r)) (mul_pair-multiple_pair s1 g1 s2 g2 h1 h2)
        (mul-multiple c laws e y he)
      ∙ same_affine-eq c _ _ holds visible

  module _ (x1 x2 k1 k2 : ℕ) (g1 g2 : Point) (hx1 : IsFelt x1) (hx2 : IsFelt x2) (hk1 : IsFelt k1)
      (hk2 : IsFelt k2) where
    honest :
        (prefix e : ℕ) {sent : SerializablePoint}
        → compute_challenge c prefix (mul_pair c k1 g1 k2 g2 ∷ []) ≡ ok e
        → try_from_projective c (mul_pair c k1 g1 k2 g2) ≡ ok sent
        → Visible c (
            multiple_pair c
              (scalar_add k1 (scalar_mul e x1))
              g1
              (scalar_add k2 (scalar_mul e x2))
              g2)
        → verify_poe2 c
            (mul_pair c x1 g1 x2 g2)
            g1
            g2
            (record {
              a = sent;
              s1 = scalar_add k1 (scalar_mul e x1);
              s2 = scalar_add k2 (scalar_mul e x2);
              c = e;
            })
            prefix
          ≡ ok true
    unfolding verify_poe2 ◌>>=◌
    honest prefix e challenged stored visible =
        let a = mul_pair c k1 g1 k2 g2 in
        let y = mul_pair c x1 g1 x2 g2 in
        let s1 = scalar_add k1 (scalar_mul e x1) in
        let s2 = scalar_add k2 (scalar_mul e x2) in
        let holds : multiple_pair c s1 g1 s2 g2 ≡ add a (multiple c e y) =
          response_pair k1 k2 e x1 x2 g1 g2
          ∙ ap₂ (λ p q. add p (multiple c e q)) (sym (mul_pair-multiple_pair k1 g1 k2 g2 hk1 hk2))
              (sym (mul_pair-multiple_pair x1 g1 x2 g2 hx1 hx2)) in
        let he = compute_challenge-IsFelt c laws prefix a [] challenged in
        rw (load-try_from_projective c laws a stored, challenged, eq→== e e refl)
          (verify_pair-true y g1 g2 a e s1 s2 he (scalar_add-IsFelt k1 (scalar_mul e x1))
            (scalar_add-IsFelt k2 (scalar_mul e x2)) holds visible)

    -- For two secrets and two random felts whose combination of the bases is finite, `prove_pair`
    -- returns the secrets' combination with a proof, which `verify_poe2` accepts for the same bases
    -- and prefix, unless the combination of its responses is the point at infinity.
    pub prove_pair-verify_poe2 :
        (prefix : ℕ)
        → multiple_pair c k1 g1 k2 g2 ≢ identity
        → (y : Point) × (proof : Poe2Proof) × (prove_pair c x1 x2 g1 g2 prefix k1 k2
            ≡ ok (y, proof))
          × (y ≡ multiple_pair c x1 g1 x2 g2)
          × ((verify_poe2 c y g1 g2 proof prefix ≡ ok true)
              ⊎ (multiple_pair c proof.s1 g1 proof.s2 g2 ≡ identity))
    unfolding prove_pair ◌>>=◌
    prove_pair-verify_poe2 prefix finite =
        let a = mul_pair c k1 g1 k2 g2 in
        let v : Visible c a =
          subst (Visible c) (sym (mul_pair-multiple_pair k1 g1 k2 g2 hk1 hk2))
            (ne_identity-Visible c laws _ finite) in
        let (e, challenged) = compute_challenge_total c prefix (a ∷ []) (v, tt) in
        let (sent, stored) = try_from_projective_total c a v in
        let s1 = scalar_add k1 (scalar_mul e x1) in
        let s2 = scalar_add k2 (scalar_mul e x2) in
        (
          mul_pair c x1 g1 x2 g2,
          record { a = sent; s1 = s1; s2 = s2; c = e },
          rw (challenged, stored) refl,
          mul_pair-multiple_pair x1 g1 x2 g2 hx1 hx2,
          elim (Visible-or-identity c laws (multiple_pair c s1 g1 s2 g2)) [
            | inl seen ↦ inl (honest prefix e challenged stored seen)
            | inr hidden ↦ inr hidden
          ],
        )
