-- ===== src/Crypto/Bit/Producing.antt =====
-- When crates/crypto/src/bit.rs returns a proof.
use krusty_kms.Prelude.{ℕ, zero, suc, ◌≡◌, refl, sym, ap, ap₂, ◌∙◌, [], ◌∷◌, ◌≢◌, ◌<◌, subst, arith}
use krusty_kms.Common.Error.{ok, crypto_error, ◌>>=◌}
use krusty_kms.Crypto.Scalar.{IsFelt, scalar_add, scalar_sub, scalar_mul}
use krusty_kms.Crypto.Curve.{Curve, IsGroup, multiple, mul}
use krusty_kms.Crypto.Curve.Group.{identity-add, add-cancel, multiple_one}
use krusty_kms.Crypto.Curve.Multiplication.{mul-multiple}
use krusty_kms.Crypto.Curve.Affine.{
  Visible, ne_identity-Visible, try_from_projective_total, negate_total, negate-inverse,
}
use krusty_kms.Crypto.Hash.{poseidon_challenge_total}
use krusty_kms.Crypto.Poe2.Accepting.{multiple_pair}
use krusty_kms.Crypto.Bit.{ProofOfBit, BitCoins, simulate_poe, prove_bit_0, prove_bit_1, prove_bit}
use krusty_kms.Crypto.Bit.Accepting.{AreFelts, IsProved, prove_bit-IsProved}

module _ (c : Curve) (laws : IsGroup c) where
  open c use {Point, identity, add, sub}

  pub seen : (p q : Point) → p ≡ q → q ≢ identity → Visible c p
  seen p q e h = subst (Visible c) (sym e) (ne_identity-Visible c laws q h)

  simulate_poe_total :
      (y gen : Point) (s e : ℕ)
      → IsFelt s
      → IsFelt e
      → multiple c e y ≢ identity
      → multiple c s gen ≢ multiple c e y
      → (a : Point) × (simulate_poe c y gen s e ≡ ok a) × Visible c a
  unfolding simulate_poe ◌>>=◌
  simulate_poe_total y gen s e hs he finite differ =
      let same_y = mul-multiple c laws e y he in
      let same_gen = mul-multiple c laws s gen hs in
      let (inverse, negated) =
        negate_total c laws crypto_error (mul c e y) (seen (mul c e y) _ same_y finite) in
      let cancels = negate-inverse c laws crypto_error (mul c e y) negated in
      let a = add (mul c s gen) inverse in
      let not_identity : a ≢ identity = λ h. differ (
        sym same_gen
        ∙ add-cancel c laws (mul c s gen) (mul c e y) inverse (h ∙ sym cancels)
        ∙ same_y) in
      (a, rw negated refl, ne_identity-Visible c laws a not_identity)

  -- What is simulated: that the commitment is to the other bit.
  abbrev pub other : ℕ → Point → Point → Point
  other zero v g1 = sub v g1
  other (suc n) v g1 = v

  -- The points that get coordinates are finite.
  pub record IsFinite (random : ℕ) (g1 g2 : Point) (coins : BitCoins) (bit : ℕ) : Type 0 where
    pub base : g1 ≢ identity
    pub commitment : multiple_pair c bit g1 random g2 ≢ identity
    pub real : multiple c coins.k g2 ≢ identity
    pub masked : multiple c coins.c (other bit (multiple_pair c bit g1 random g2) g1) ≢ identity
    pub simulated :
        multiple c coins.s g2 ≢ multiple c coins.c (other bit (multiple_pair c bit g1 random g2) g1)

  module _ (random : ℕ) (g1 g2 : Point) (prefix : ℕ) (coins : BitCoins) (hr : IsFelt random)
      (felts : AreFelts coins) where
    without : (v n : Point) → add g1 n ≡ identity → add v n ≡ sub v g1
    without v n inverse =
        sym (laws.sub-add (add v n) g1)
        ∙ ap (λ p. sub p g1)
            (laws.add_assoc v n g1
              ∙ ap (add v) (laws.add_comm n g1 ∙ inverse)
              ∙ laws.add-identity v)

    prove_bit_0_total :
        IsFinite random g1 g2 coins 0
        → (v : Point) × (proof : ProofOfBit) × (prove_bit_0 c random g1 g2 prefix coins
            ≡ ok (v, proof))
    unfolding prove_bit_0 multiple ◌>>=◌
    prove_bit_0_total finite =
        let v = mul c random g2 in
        let same_v : v ≡ multiple_pair c 0 g1 random g2 =
          mul-multiple c laws random g2 hr ∙ sym (identity-add c laws (multiple c random g2)) in
        let (neg_g1, negated) =
          negate_total c laws crypto_error g1 (ne_identity-Visible c laws g1 finite.base) in
        let same_y : add v neg_g1 ≡ sub (multiple_pair c 0 g1 random g2) g1 =
          without v neg_g1 (negate-inverse c laws crypto_error g1 negated)
          ∙ ap (λ p. sub p g1) same_v in
        let (a1, simulated, seen1) =
          simulate_poe_total (add v neg_g1) g2 coins.s coins.c felts.s felts.c
            (subst (λ y. multiple c coins.c y ≢ identity) (sym same_y) finite.masked)
            (subst (λ y. multiple c coins.s g2 ≢ multiple c coins.c y) (sym same_y)
              finite.simulated) in
        let a0 = mul c coins.k g2 in
        let seen0 = seen a0 _ (mul-multiple c laws coins.k g2 felts.k) finite.real in
        let seen_v = seen v _ same_v finite.commitment in
        let (e, challenged) =
          poseidon_challenge_total c prefix (v ∷ (a0 ∷ (a1 ∷ []))) (seen_v, (seen0, (seen1, tt))) in
        let (sent0, stored0) = try_from_projective_total c a0 seen0 in
        let (sent1, stored1) = try_from_projective_total c a1 seen1 in
        let c0 = scalar_sub e coins.c in
        (
          v,
          record {
            a0 = sent0;
            a1 = sent1;
            c0 = c0;
            s0 = scalar_add coins.k (scalar_mul c0 random);
            s1 = coins.s;
          },
          rw (negated, simulated, challenged, stored0, stored1) refl,
        )

    prove_bit_1_total :
        IsFinite random g1 g2 coins 1
        → (v : Point) × (proof : ProofOfBit) × (prove_bit_1 c random g1 g2 prefix coins
            ≡ ok (v, proof))
    unfolding prove_bit_1 ◌>>=◌
    prove_bit_1_total finite =
        let v = add g1 (mul c random g2) in
        let same_v : v ≡ multiple_pair c 1 g1 random g2 =
          ap₂ add (sym (multiple_one c laws g1)) (mul-multiple c laws random g2 hr) in
        let (a0, simulated, seen0) =
          simulate_poe_total v g2 coins.s coins.c felts.s felts.c
            (subst (λ y. multiple c coins.c y ≢ identity) (sym same_v) finite.masked)
            (subst (λ y. multiple c coins.s g2 ≢ multiple c coins.c y) (sym same_v)
              finite.simulated) in
        let a1 = mul c coins.k g2 in
        let seen1 = seen a1 _ (mul-multiple c laws coins.k g2 felts.k) finite.real in
        let seen_v = seen v _ same_v finite.commitment in
        let (e, challenged) =
          poseidon_challenge_total c prefix (v ∷ (a0 ∷ (a1 ∷ []))) (seen_v, (seen0, (seen1, tt))) in
        let (sent0, stored0) = try_from_projective_total c a0 seen0 in
        let (sent1, stored1) = try_from_projective_total c a1 seen1 in
        let c1 = scalar_sub e coins.c in
        (
          v,
          record {
            a0 = sent0;
            a1 = sent1;
            c0 = coins.c;
            s0 = coins.s;
            s1 = scalar_add coins.k (scalar_mul c1 random);
          },
          rw (simulated, challenged, stored0, stored1) refl,
        )

    -- For a bit whose points are finite, `prove_bit` returns the commitment to the bit under the
    -- random felt with a proof, which `verify_bit` accepts for the same bases and prefix, unless a
    -- multiple of the second base by a response is the point at infinity.
    pub prove_bit_total :
        (bit : ℕ)
        → bit < 2
        → IsFinite random g1 g2 coins bit
        → (v : Point) × (proof : ProofOfBit) × (prove_bit c bit random g1 g2 prefix coins
            ≡ ok (v, proof))
          × IsProved c laws random g1 g2 prefix coins hr felts bit v proof
    unfolding prove_bit
    prove_bit_total zero small finite =
        let (v, proof, h) = prove_bit_0_total finite in
        (
          v,
          proof,
          h,
          (prove_bit-IsProved c laws random g1 g2 prefix coins hr felts 0 finite.base h).1,
        )
    prove_bit_total (suc zero) small finite =
        let (v, proof, h) = prove_bit_1_total finite in
        (
          v,
          proof,
          h,
          (prove_bit-IsProved c laws random g1 g2 prefix coins hr felts 1 finite.base h).1,
        )
    prove_bit_total (suc (suc n)) small finite = absurd (omega arith)
