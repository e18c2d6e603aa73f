-- ===== src/Crypto/Range/Accepting.antt =====
-- What crates/crypto/src/range.rs verifies of what it proves.
use krusty_kms.Prelude.{
  ℕ, zero, suc, ◌+◌, ◌*◌, ◌/◌, ◌%◌, ◌^◌, ◌≤◌, ◌<◌, ◌≡◌, sym, ap, ◌∙◌, List, [], ◌∷◌, some, true,
  leb, ◌==◌, ◌≢◌, subst, arith, ◌⊎◌, inl, inr, length, All, eq→==, ==→eq,
}
use krusty_kms.Common.Error.{ok, crypto_error, guard, ◌>>=◌, >>=-eq-ok, guard-eq-ok}
use krusty_kms.Crypto.Scalar.{IsFelt, felt_add, scalar_add, scalar_mul}
use krusty_kms.Crypto.Curve.{Curve, IsGroup, multiple, load, SerializablePoint}
use krusty_kms.Crypto.Curve.Group.{multiple-response, identity-add, multiple_one}
use krusty_kms.Crypto.Poe2.Accepting.{multiple_pair}
use krusty_kms.Crypto.Bit.{ProofOfBit, BitCoins, verify_bit}
use krusty_kms.Crypto.Bit.Accepting.{AreFelts, IsDegenerate}
use krusty_kms.Crypto.Range.{
  Range, add_randomness, compute_total_randomness, bits, max_value, BitResult, push, prove_bits,
  accumulate, prove_with_randomness, verify_all, verify_range,
}
use krusty_kms.Crypto.Range.Stepping.{
  from_bits, from_bits-bits, length-bits, leb→le, le→leb, max_value_lt, AnyDegenerate, Verifies,
  peel, verified_rest,
}

module _ (c : Curve) (laws : IsGroup c) (g1 g2 : c.Point) (finite : g1 ≢ c.identity) (prefix : ℕ)
    (coins : ℕ → BitCoins) (felts : (i : ℕ) → AreFelts (coins i)) where
  open c use {Point, identity, add}

  -- The first bit has weight one.
  first_total :
      (bit r_inn : ℕ) (v : Point)
      → v ≡ multiple_pair c bit g1 r_inn g2
      → v ≡ multiple_pair c bit g1 (scalar_add 0 (scalar_mul (2 ^ 0) r_inn)) g2
  unfolding multiple
  first_total bit r_inn v known =
      known
      ∙ ap (add (multiple c bit g1)) (
          sym (identity-add c laws (multiple c r_inn g2))
          ∙ ap (add identity) (sym (multiple_one c laws (multiple c r_inn g2)))
          ∙ sym (multiple-response c laws 0 1 r_inn g2))

  abbrev VerifiesAll : ℕ → List ℕ → List ℕ → Range × ℕ → Type 0
  VerifiesAll b b_bin random_values proved =
      (proved.1 ≡ add_randomness 0 0 random_values)
      × (length proved.0.commitments ≡ length b_bin)
      × (length proved.0.proofs ≡ length b_bin)
      × ((verify_all c g1 g2 prefix proved.0.commitments proved.0.proofs
            ≡ some (ok (multiple_pair c b g1 proved.1 g2)))
          ⊎ AnyDegenerate c laws g1 g2 finite prefix coins felts proved.0.proofs)

  verified_first :
      (bit r_inn : ℕ) (v : Point) (b_bin random_values : List ℕ) (commitment : SerializablePoint)
      (proof : ProofOfBit) (rest : Range × ℕ)
      → load c commitment ≡ ok v
      → (verify_bit c v g1 g2 proof prefix ≡ ok true) ⊎ IsDegenerate c laws g2 proof
      → Verifies c laws g1 g2 finite prefix coins felts 1 bit
          (scalar_add 0 (scalar_mul (2 ^ 0) r_inn))
          v
          b_bin
          random_values
          rest
      → VerifiesAll
          (bit + 2 * from_bits b_bin)
          (bit ∷ b_bin)
          (r_inn ∷ random_values)
          (push commitment proof rest)
  unfolding verify_all add_randomness ◌>>=◌
  verified_first bit r_inn v b_bin random_values commitment proof rest loaded accepted
        (sum, lengths_c, lengths_p, verified) =
      (
        sum,
        ap suc lengths_c,
        ap suc lengths_p,
        elim accepted [
          | inl good ↦ elim verified [
            | inl verifies ↦ inl (ap some (rw (loaded, good) verifies))
            | inr degenerate ↦ inr (inr degenerate)
          ]
          | inr degenerate ↦ inr (inl degenerate)
        ],
      )

  verified_whole :
      (b n : ℕ) (random_values : List ℕ) {results : List (BitResult Point)} {proved : Range × ℕ}
      → b < 2 ^ suc n
      → suc n ≤ 128
      → length random_values ≡ suc n
      → IsFelt prefix
      → All IsFelt random_values
      → prove_bits c g1 g2 prefix coins 0 (bits (suc n) b) random_values ≡ ok results
      → accumulate c g1 g2 prefix 0 0 results ≡ ok proved
      → VerifiesAll b (bits (suc n) b) random_values proved
  unfolding bits felt_add
  verified_whole b n [] small fits same hp values h accumulated = absurd (omega arith)
  verified_whole b n (r_inn ∷ random_values) {results} {proved} small fits same hp (value, values) h
        accumulated =
      let bit = b % 2 in
      let b_bin = bits n (b / 2) in
      let size = length-bits n (b / 2) in
      let step =
        peel c laws g1 g2 finite prefix coins felts 0 0 bit r_inn b_bin random_values value h
          accumulated in
      let rest =
        verified_rest c laws g1 g2 finite prefix coins felts 1 bit
          (scalar_add 0 (scalar_mul (2 ^ 0) r_inn)) step.v b_bin random_values
          (omega (arith, size, fits)) (omega (arith, same, size)) values
          (first_total bit r_inn step.v step.is_commitment) step.proved_rest
          step.accumulated_rest in
      let same_prefix : felt_add prefix 0 ≡ prefix = omega (arith, hp) in
      let accepted =
        subst
          (λ q.
            (verify_bit c step.v g1 g2 step.proof q ≡ ok true) ⊎ IsDegenerate c laws g2 step.proof)
          same_prefix step.accepted in
      let whole : bit + 2 * from_bits b_bin ≡ b = from_bits-bits (suc n) b small in
      subst (λ t. VerifiesAll t (bit ∷ b_bin) (r_inn ∷ random_values) proved) whole
        (subst (VerifiesAll (bit + 2 * from_bits b_bin) (bit ∷ b_bin) (r_inn ∷ random_values))
          step.pushed
          (verified_first bit r_inn step.v b_bin random_values step.commitment step.proof step.out
            step.loaded accepted rest))

  -- What is proved for a number that has at least one bit is in the range. The randomness that is
  -- returned is the one that `compute_total_randomness` gives, and verification returns the
  -- commitment to the number under that randomness, unless a multiple of the second base by a
  -- response of a bit's proof is the point at infinity. The random values are felts, and the first
  -- base is finite.
  pub prove_with_randomness-verify_range :
      (b bit_size : ℕ) (random_values : List ℕ) {range : Range} {r : ℕ}
      → 0 < bit_size
      → IsFelt prefix
      → All IsFelt random_values
      → prove_with_randomness c g1 g2 prefix coins b bit_size random_values ≡ ok (range, r)
      → (b < 2 ^ bit_size)
        × (compute_total_randomness random_values ≡ ok r)
        × ((verify_range c g1 g2 prefix range bit_size ≡ some (ok (multiple_pair c b g1 r g2)))
            ⊎ AnyDegenerate c laws g1 g2 finite prefix coins felts range.proofs)
  unfolding prove_with_randomness compute_total_randomness verify_range ◌>>=◌
  prove_with_randomness-verify_range b zero random_values positive hp values h =
      absurd (omega arith)
  prove_with_randomness-verify_range b (suc n) random_values {range} {r} positive hp values h =
      let (_, g1', h1) = >>=-eq-ok (guard (leb (suc n) 128) crypto_error) _ h in
      let (_, g2', h2) = >>=-eq-ok (guard (length random_values == suc n) crypto_error) _ h1 in
      let (_, g3', h3) = >>=-eq-ok (guard (leb b (max_value (suc n))) crypto_error) _ h2 in
      let (results, proved, accumulated) =
        >>=-eq-ok (prove_bits c g1 g2 prefix coins 0 (bits (suc n) b) random_values) _ h3 in
      let fits = leb→le (suc n) 128 (guard-eq-ok _ _ g1') in
      let same = ==→eq (length random_values) (suc n) (guard-eq-ok _ _ g2') in
      let small = max_value_lt b (suc n) (guard-eq-ok _ _ g3') in
      let (sum, lengths_c, lengths_p, verified) =
        verified_whole b n random_values small fits same hp values proved accumulated in
      let size = length-bits (suc n) b in
      let same_c = eq→== (length range.commitments) (suc n) (lengths_c ∙ size) in
      let same_p = eq→== (length range.proofs) (suc n) (lengths_p ∙ size) in
      (
        small,
        rw (le→leb (length random_values) 128 (omega (arith, same, fits))) (ap ok (sym sum)),
        elim verified [ inl verifies ↦ inl (rw (same_c, same_p) verifies) | inr bad ↦ inr bad ],
      )
