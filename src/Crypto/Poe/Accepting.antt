-- ===== src/Crypto/Poe/Accepting.antt =====
-- Which proofs crates/crypto/src/poe.rs accepts.
use krusty_kms.Prelude.{
  ℕ, ◌≡◌, refl, sym, ap, ap₂, ◌∙◌, [], ◌∷◌, true, ◌≢◌, eq→==, subst, ◌⊎◌, inl, inr,
}
use krusty_kms.Common.Error.{ok, ◌>>=◌}
use krusty_kms.Crypto.Scalar.{IsFelt, scalar_add, scalar_sub, scalar_mul, scalar_add-IsFelt}
use krusty_kms.Crypto.Curve.{
  Curve, IsGroup, multiple, mul, same_affine, try_from_projective, SerializablePoint,
}
use krusty_kms.Crypto.Curve.Group.{
  multiple-response, multiple-scalar_mul, multiple-scalar_sub, multiple_one, add-cancel, add_swap,
}
use krusty_kms.Crypto.Curve.Multiplication.{mul-multiple}
use krusty_kms.Crypto.Curve.Affine.{
  Visible, Visible-or-identity, try_from_projective_total, ne_identity-Visible, same_affine-eq,
  same_affine-true, load-try_from_projective,
}
use krusty_kms.Crypto.Hash.{
  compute_poseidon_challenge, poseidon_challenge-IsFelt, poseidon_challenge_total,
}
use krusty_kms.Crypto.Poe.{PoeProof, verify_internal, prove, verify}

module _ (c : Curve) (laws : IsGroup c) where
  open c use {Point, identity, add, generator}

  -- The equation that is checked, as the group has it.
  verify_internal-same_affine :
      (y gen a : Point) (e s : ℕ)
      → IsFelt e
      → IsFelt s
      → verify_internal c y gen a e s ≡ same_affine c (multiple c s gen) (add a (multiple c e y))
  unfolding verify_internal
  verify_internal-same_affine y gen a e s he hs =
      ap₂ (λ l r. same_affine c l (add a r)) (mul-multiple c laws s gen hs)
        (mul-multiple c laws e y he)

  pub verify_internal-true :
      (y gen a : Point) (e s : ℕ)
      → IsFelt e
      → IsFelt s
      → multiple c s gen ≡ add a (multiple c e y)
      → Visible c (multiple c s gen)
      → verify_internal c y gen a e s ≡ ok true
  verify_internal-true y gen a e s he hs holds visible =
      verify_internal-same_affine y gen a e s he hs ∙ same_affine-eq c _ _ holds visible

  pub true-verify_internal :
      (y gen a : Point) (e s : ℕ)
      → IsFelt e
      → IsFelt s
      → verify_internal c y gen a e s ≡ ok true
      → multiple c s gen ≡ add a (multiple c e y)
  true-verify_internal y gen a e s he hs h =
      same_affine-true c laws _ _ (sym (verify_internal-same_affine y gen a e s he hs) ∙ h)

  -- What an honest prover sends, and what the verifier makes of it.
  honest :
      (x prefix r e : ℕ) {sent : SerializablePoint}
      → IsFelt x
      → IsFelt r
      → compute_poseidon_challenge c prefix (mul c r generator ∷ []) ≡ ok e
      → try_from_projective c (mul c r generator) ≡ ok sent
      → Visible c (multiple c (scalar_add r (scalar_mul e x)) generator)
      → verify c
          (mul c x generator)
          (record { a = sent; s = scalar_add r (scalar_mul e x); c = e })
          prefix
        ≡ ok true
  unfolding verify ◌>>=◌
  honest x prefix r e hx hr challenged stored visible =
      let a = mul c r generator in
      let y = mul c x generator in
      let s = scalar_add r (scalar_mul e x) in
      let holds : multiple c s generator ≡ add a (multiple c e y) =
        multiple-response c laws r e x generator
        ∙ ap₂ (λ p q. add p (multiple c e q)) (sym (mul-multiple c laws r generator hr))
            (sym (mul-multiple c laws x generator hx)) in
      let he = poseidon_challenge-IsFelt c prefix _ challenged in
      rw (load-try_from_projective c laws a stored, challenged, eq→== e e refl)
        (verify_internal-true y generator a e s he (scalar_add-IsFelt r (scalar_mul e x)) holds
          visible)

  -- For a secret and a random felt that is no multiple of the order, `prove` returns that multiple
  -- of the generator with a proof, which `verify` accepts for the same prefix, unless its response
  -- is a multiple of the order.
  pub prove-verify :
      (x prefix r : ℕ)
      → IsFelt x
      → IsFelt r
      → multiple c r generator ≢ identity
      → (y : Point) × (proof : PoeProof) × (prove c x prefix r ≡ ok (y, proof))
        × (y ≡ multiple c x generator)
        × ((verify c y proof prefix ≡ ok true) ⊎ (multiple c proof.s generator ≡ identity))
  unfolding prove ◌>>=◌
  prove-verify x prefix r hx hr finite =
      let a = mul c r generator in
      let v : Visible c a =
        subst (Visible c) (sym (mul-multiple c laws r generator hr))
          (ne_identity-Visible c laws _ finite) in
      let (e, challenged) = poseidon_challenge_total c prefix (a ∷ []) (v, tt) in
      let (sent, stored) = try_from_projective_total c a v in
      let s = scalar_add r (scalar_mul e x) in
      (
        mul c x generator,
        record { a = sent; s = s; c = e },
        rw (challenged, stored) refl,
        mul-multiple c laws x generator hx,
        elim (Visible-or-identity c laws (multiple c s generator)) [
          | inl seen ↦ inl (honest x prefix r e hx hr challenged stored seen)
          | inr hidden ↦ inr hidden
        ],
      )

  cancelled :
      (y gen a : Point) (e s e' s' : ℕ)
      → multiple c s gen ≡ add a (multiple c e y)
      → multiple c s' gen ≡ add a (multiple c e' y)
      → multiple c (scalar_sub e e') y ≡ multiple c (scalar_sub s s') gen
  cancelled y gen a e s e' s' one two =
      let challenges = multiple c (scalar_sub e e') y in
      let responses = multiple c (scalar_sub s s') gen in
      let rest = add a (multiple c e' y) in
      add-cancel c laws challenges responses rest (
        add_swap c laws challenges a (multiple c e' y)
        ∙ ap (add a) (multiple-scalar_sub c laws e e' y)
        ∙ sym one
        ∙ sym (multiple-scalar_sub c laws s s' gen)
        ∙ ap (add responses) two)

  -- Two accepted responses to different challenges for one commitment determine the secret: with an
  -- inverse of the difference of the challenges, it is the multiple of `gen` that `y` is.
  pub verify_internal-extract :
      (y gen a : Point) (e s e' s' inverse : ℕ)
      → IsFelt e
      → IsFelt s
      → IsFelt e'
      → IsFelt s'
      → verify_internal c y gen a e s ≡ ok true
      → verify_internal c y gen a e' s' ≡ ok true
      → scalar_mul inverse (scalar_sub e e') ≡ 1
      → y ≡ multiple c (scalar_mul inverse (scalar_sub s s')) gen
  verify_internal-extract y gen a e s e' s' inverse he hs he' hs' first second inverts =
      let one = true-verify_internal y gen a e s he hs first in
      let two = true-verify_internal y gen a e' s' he' hs' second in
      let differ = cancelled y gen a e s e' s' one two in
      sym (multiple_one c laws y)
      ∙ ap (λ k. multiple c k y) (sym inverts)
      ∙ multiple-scalar_mul c laws inverse (scalar_sub e e') y
      ∙ ap (multiple c inverse) differ
      ∙ sym (multiple-scalar_mul c laws inverse (scalar_sub s s') gen)
