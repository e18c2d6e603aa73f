-- ===== src/Crypto/Bit/Accepting.antt =====
-- Which proofs crates/crypto/src/bit.rs accepts.
use krusty_kms.Prelude.{
  ℕ, zero, suc, ◌<◌, ◌%◌, ◌≡◌, sym, ap, ap₂, ◌∙◌, [], ◌∷◌, true, ◌≢◌, subst, arith, ◌⊎◌, inl, inr,
}
use krusty_kms.Common.Error.{ok, err, err-ne-ok, crypto_error, ◌>>=◌, >>=-eq-ok, ok-injective}
use krusty_kms.Crypto.Scalar.{
  IsFelt, curve_order, scalar_add, scalar_sub, scalar_mul, scalar_add-IsFelt, scalar_sub-IsFelt,
}
use krusty_kms.Crypto.Curve.{Curve, IsGroup, multiple, mul, try_from_projective, load, negate}
use krusty_kms.Crypto.Curve.Group.{multiple-response, multiple-mod, multiple_one, identity-add}
use krusty_kms.Crypto.Curve.Multiplication.{mul-multiple}
use krusty_kms.Crypto.Curve.Affine.{
  Visible, Visible-or-identity, ne_identity-Visible, negate_total, load-try_from_projective,
  negate-inverse,
}
use krusty_kms.Crypto.Hash.{compute_poseidon_challenge}
use krusty_kms.Crypto.Poe.Accepting.{verify_internal-true}
use krusty_kms.Crypto.Poe2.Accepting.{multiple_pair}
use krusty_kms.Crypto.Bit.{
  ProofOfBit, BitCoins, simulate_poe, prove_bit_0, prove_bit_1, prove_bit, verify_second,
  verify_bit,
}

pub record AreFelts (coins : BitCoins) : Type 0 where
  pub s : IsFelt coins.s
  pub c : IsFelt coins.c
  pub k : IsFelt coins.k

module _ (c : Curve) (laws : IsGroup c) where
  open c use {Point, identity, add}

  -- The simulated commitment satisfies the equation that is checked.
  simulate_poe-holds :
      (y gen : Point) (s e : ℕ) {a : Point}
      → IsFelt s
      → IsFelt e
      → simulate_poe c y gen s e ≡ ok a
      → multiple c s gen ≡ add a (multiple c e y)
  unfolding simulate_poe
  simulate_poe-holds y gen s e {a} hs he h =
      let (neg, negated, done) = >>=-eq-ok (negate c crypto_error (mul c e y)) _ h in
      let inverse : add (multiple c e y) neg ≡ identity =
        ap (λ p. add p neg) (sym (mul-multiple c laws e y he))
        ∙ negate-inverse c laws crypto_error (mul c e y) negated in
      sym (
        ap (λ p. add p (multiple c e y)) (sym (ok-injective _ a done))
        ∙ laws.add_assoc (mul c s gen) neg (multiple c e y)
        ∙ ap₂ add (mul-multiple c laws s gen hs) (laws.add_comm neg (multiple c e y) ∙ inverse)
        ∙ laws.add-identity (multiple c s gen))

  -- The response to a challenge for a multiple of the base.
  real-holds :
      (k e random : ℕ) (gen y : Point)
      → IsFelt k
      → y ≡ multiple c random gen
      → multiple c (scalar_add k (scalar_mul e random)) gen ≡ add (mul c k gen) (multiple c e y)
  real-holds k e random gen y hk is_multiple =
      multiple-response c laws k e random gen
      ∙ ap₂ (λ p q. add p (multiple c e q)) (sym (mul-multiple c laws k gen hk)) (sym is_multiple)

  -- The verifier finds the challenge of the second branch again.
  sub_sub : (n m : ℕ) → scalar_sub n (scalar_sub n m) ≡ m % curve_order
  unfolding scalar_sub
  sub_sub n m = omega arith

  multiple-sub_sub :
      (n m : ℕ) (p : Point) → multiple c (scalar_sub n (scalar_sub n m)) p ≡ multiple c m p
  multiple-sub_sub n m p = ap (λ k. multiple c k p) (sub_sub n m) ∙ multiple-mod c laws m p

  -- A proof is accepted whose two equations hold, for the challenge that its commitments have.
  verify_bit-true :
      (v g1 g2 a0 a1 neg_g1 : Point) (proof : ProofOfBit) (prefix e : ℕ)
      → load c proof.a0 ≡ ok a0
      → load c proof.a1 ≡ ok a1
      → compute_poseidon_challenge c prefix (v ∷ (a0 ∷ (a1 ∷ []))) ≡ ok e
      → negate c crypto_error g1 ≡ ok neg_g1
      → IsFelt proof.c0
      → IsFelt proof.s0
      → IsFelt proof.s1
      → multiple c proof.s0 g2 ≡ add a0 (multiple c proof.c0 v)
      → multiple c proof.s1 g2 ≡ add a1 (multiple c (scalar_sub e proof.c0) (add v neg_g1))
      → Visible c (multiple c proof.s0 g2)
      → Visible c (multiple c proof.s1 g2)
      → verify_bit c v g1 g2 proof prefix ≡ ok true
  unfolding verify_bit verify_second ◌>>=◌
  verify_bit-true v g1 g2 a0 a1 neg_g1 proof prefix e l0 l1 challenged negated hc0 hs0 hs1 first
        second seen0 seen1 =
      rw
        (
          l0,
          l1,
          challenged,
          verify_internal-true c laws v g2 a0 proof.c0 proof.s0 hc0 hs0 first seen0,
          negated,
        )
        (verify_internal-true c laws (add v neg_g1) g2 a1 (scalar_sub e proof.c0) proof.s1
          (scalar_sub-IsFelt e proof.c0) hs1 second seen1)

  -- A multiple by a response is the point at infinity.
  abbrev pub IsDegenerate : Point → ProofOfBit → Type 0
  IsDegenerate g2 proof = (multiple c proof.s0 g2 ≡ identity) ⊎ (multiple c proof.s1 g2 ≡ identity)

  accepted_or_IsDegenerate :
      (v g1 g2 : Point) (proof : ProofOfBit) (prefix : ℕ)
      → (Visible c (multiple c proof.s0 g2)
          → Visible c (multiple c proof.s1 g2)
          → verify_bit c v g1 g2 proof prefix ≡ ok true)
      → (verify_bit c v g1 g2 proof prefix ≡ ok true) ⊎ IsDegenerate g2 proof
  accepted_or_IsDegenerate v g1 g2 proof prefix accept =
      elim (Visible-or-identity c laws (multiple c proof.s0 g2)) [
        | inl seen0 ↦ elim (Visible-or-identity c laws (multiple c proof.s1 g2)) [
          | inl seen1 ↦ inl (accept seen0 seen1)
          | inr hidden ↦ inr (inr hidden)
        ]
        | inr hidden ↦ inr (inl hidden)
      ]

  module _ (random : ℕ) (g1 g2 : Point) (prefix : ℕ) (coins : BitCoins) (hr : IsFelt random)
      (felts : AreFelts coins) where
    -- The commitment is to the bit, and its proof is accepted or degenerate.
    abbrev pub IsProved : ℕ → Point → ProofOfBit → Type 0
    IsProved bit v proof =
        (v ≡ multiple_pair c bit g1 random g2)
        × ((verify_bit c v g1 g2 proof prefix ≡ ok true) ⊎ IsDegenerate g2 proof)

    prove_bit_0-IsProved :
        {v : Point} {proof : ProofOfBit}
        → prove_bit_0 c random g1 g2 prefix coins ≡ ok (v, proof)
        → IsProved 0 v proof
    unfolding prove_bit_0 multiple
    prove_bit_0-IsProved h =
        let v = mul c random g2 in
        let a0 = mul c coins.k g2 in
        let (neg_g1, negated, h1) = >>=-eq-ok (negate c crypto_error g1) _ h in
        let (a1, simulated, h2) =
          >>=-eq-ok (simulate_poe c (add v neg_g1) g2 coins.s coins.c) _ h1 in
        let (e, challenged, h3) =
          >>=-eq-ok (compute_poseidon_challenge c prefix (v ∷ (a0 ∷ (a1 ∷ [])))) _ h2 in
        let (sent0, stored0, h4) = >>=-eq-ok (try_from_projective c a0) _ h3 in
        let (sent1, stored1, done) = >>=-eq-ok (try_from_projective c a1) _ h4 in
        let is_multiple = mul-multiple c laws random g2 hr in
        let c0 = scalar_sub e coins.c in
        let proof : ProofOfBit = record {
          a0 = sent0;
          a1 = sent1;
          c0 = c0;
          s0 = scalar_add coins.k (scalar_mul c0 random);
          s1 = coins.s;
        } in
        let second : multiple c coins.s g2 ≡ add a1 (multiple c (scalar_sub e c0) (add v neg_g1)) =
          simulate_poe-holds (add v neg_g1) g2 coins.s coins.c felts.s felts.c simulated
          ∙ ap (add a1) (sym (multiple-sub_sub e coins.c (add v neg_g1))) in
        subst (λ (t : Point × ProofOfBit). IsProved 0 t.0 t.1) (ok-injective _ _ done)
          (
            is_multiple ∙ sym (identity-add c laws (multiple c random g2)),
            accepted_or_IsDegenerate v g1 g2 proof prefix (
                verify_bit-true v g1 g2 a0 a1 neg_g1 proof prefix e
                  (load-try_from_projective c laws a0 stored0)
                  (load-try_from_projective c laws a1 stored1) challenged negated
                  (scalar_sub-IsFelt e coins.c) (scalar_add-IsFelt coins.k (scalar_mul c0 random))
                  felts.s (real-holds coins.k c0 random g2 v felts.k is_multiple) second),
          )

    prove_bit_1-IsProved :
        {v : Point} {proof : ProofOfBit}
        → Visible c g1
        → prove_bit_1 c random g1 g2 prefix coins ≡ ok (v, proof)
        → IsProved 1 v proof
    unfolding prove_bit_1
    prove_bit_1-IsProved finite h =
        let v = add g1 (mul c random g2) in
        let a1 = mul c coins.k g2 in
        let (a0, simulated, h2) = >>=-eq-ok (simulate_poe c v g2 coins.s coins.c) _ h in
        let (e, challenged, h3) =
          >>=-eq-ok (compute_poseidon_challenge c prefix (v ∷ (a0 ∷ (a1 ∷ [])))) _ h2 in
        let (sent0, stored0, h4) = >>=-eq-ok (try_from_projective c a0) _ h3 in
        let (sent1, stored1, done) = >>=-eq-ok (try_from_projective c a1) _ h4 in
        let (neg_g1, negated) = negate_total c laws crypto_error g1 finite in
        let is_multiple = mul-multiple c laws random g2 hr in
        let c1 = scalar_sub e coins.c in
        let proof : ProofOfBit = record {
          a0 = sent0;
          a1 = sent1;
          c0 = coins.c;
          s0 = coins.s;
          s1 = scalar_add coins.k (scalar_mul c1 random);
        } in
        let without_g1 : add v neg_g1 ≡ multiple c random g2 =
          ap (λ p. add p neg_g1) (laws.add_comm g1 (mul c random g2))
          ∙ laws.add_assoc (mul c random g2) g1 neg_g1
          ∙ ap₂ add is_multiple (negate-inverse c laws crypto_error g1 negated)
          ∙ laws.add-identity (multiple c random g2) in
        subst (λ (t : Point × ProofOfBit). IsProved 1 t.0 t.1) (ok-injective _ _ done)
          (
            ap₂ add (sym (multiple_one c laws g1)) is_multiple,
            accepted_or_IsDegenerate v g1 g2 proof prefix (
                verify_bit-true v g1 g2 a0 a1 neg_g1 proof prefix e
                  (load-try_from_projective c laws a0 stored0)
                  (load-try_from_projective c laws a1 stored1) challenged negated felts.c felts.s
                  (scalar_add-IsFelt coins.k (scalar_mul c1 random))
                  (simulate_poe-holds v g2 coins.s coins.c felts.s felts.c simulated)
                  (real-holds coins.k c1 random g2 (add v neg_g1) felts.k without_g1)),
          )

    no_bit : (n : ℕ) → prove_bit c (suc (suc n)) random g1 g2 prefix coins ≡ err crypto_error
    unfolding prove_bit
    no_bit n = ground arith

    -- For felts and a finite first base, what `prove_bit` returns for a bit is the commitment to
    -- that bit under the random felt, with a proof that `verify_bit` accepts for the same bases and
    -- prefix, unless a multiple of the second base by a response is the point at infinity. It
    -- returns nothing for a number that is no bit.
    pub prove_bit-IsProved :
        (bit : ℕ) {v : Point} {proof : ProofOfBit}
        → g1 ≢ identity
        → prove_bit c bit random g1 g2 prefix coins ≡ ok (v, proof)
        → (bit < 2) × IsProved bit v proof
    unfolding prove_bit
    prove_bit-IsProved zero finite h = (omega arith, prove_bit_0-IsProved h)
    prove_bit-IsProved (suc zero) finite h =
        (omega arith, prove_bit_1-IsProved (ne_identity-Visible c laws g1 finite) h)
    prove_bit-IsProved (suc (suc n)) finite h = absurd (err-ne-ok (sym (no_bit n) ∙ h))
