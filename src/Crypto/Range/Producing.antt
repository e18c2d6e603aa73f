-- ===== src/Crypto/Range/Producing.antt =====
-- When crates/crypto/src/range.rs returns a proof.
use krusty_kms.Prelude.{
  ℕ, zero, suc, ◌-◌, ◌/◌, ◌^◌, ◌≤◌, ◌<◌, ◌≡◌, ◌≢◌, refl, List, [], ◌∷◌, some, true, leb, ◌==◌,
  Bool-cases, arith, inl, inr, ◌⊎◌, length, All, eq→==, ==→eq,
}
use krusty_kms.Common.Error.{ok, ◌>>=◌}
use krusty_kms.Crypto.Scalar.{IsFelt, felt_add, scalar_add, scalar_mul}
use krusty_kms.Crypto.Curve.{Curve, IsGroup}
use krusty_kms.Crypto.Curve.Affine.{Visible, try_from_projective_total}
use krusty_kms.Crypto.Poe2.Accepting.{multiple_pair}
use krusty_kms.Crypto.Bit.{BitCoins}
use krusty_kms.Crypto.Bit.Accepting.{AreFelts}
use krusty_kms.Crypto.Bit.Producing.{IsFinite, seen, prove_bit_total}
use krusty_kms.Crypto.Range.{
  Range, bits, max_value, BitResult, push, prove_bits, accumulate, prove_with_randomness,
  compute_total_randomness, verify_range,
}
use krusty_kms.Crypto.Range.Stepping.{le→leb, AnyDegenerate}
use krusty_kms.Crypto.Range.Accepting.{prove_with_randomness-verify_range}

bits_below : (n b : ℕ) → All (λ bit. bit < 2) (bits n b)
unfolding bits
bits_below zero b = tt
bits_below (suc n) b = (omega arith, bits_below n (b / 2))

lt-max_value : (b n : ℕ) → b < 2 ^ n → leb b (max_value n) ≡ true
lt-max_value b n h = elim (Bool-cases (n == 128)) [
  | inl full ↦
      let e = ==→eq n 128 full in
      let small : b < 2 ^ 128 = rw e at h in rw full (le→leb b (2 ^ 128 - 1) (omega (arith, small)))
  | inr partial ↦ rw partial (le→leb b (2 ^ n - 1) (omega (arith, h)))
]

module _ (c : Curve) (laws : IsGroup c) (g1 g2 : c.Point) (finite : g1 ≢ c.identity) (prefix : ℕ)
    (coins : ℕ → BitCoins) (felts : (i : ℕ) → AreFelts (coins i)) where
  open c use {Point}

  -- Each bit has finite points, from the bit `i` on.
  abbrev pub AllFinite : ℕ → List ℕ → List ℕ → Type 0
  AllFinite i [] random_values = Unit
  AllFinite i (bit ∷ b_bin) [] = Unit
  AllFinite i (bit ∷ b_bin) (r_inn ∷ random_values) =
      IsFinite c laws r_inn g1 g2 (coins i) bit × AllFinite (suc i) b_bin random_values

  prove_bits_total :
      (i : ℕ) (b_bin random_values : List ℕ)
      → All (λ bit. bit < 2) b_bin
      → All IsFelt random_values
      → AllFinite i b_bin random_values
      → (results : List (BitResult Point)) × (prove_bits c g1 g2 prefix coins i b_bin random_values
          ≡ ok results)
        × All (λ result. Visible c result.0) results
  unfolding prove_bits ◌>>=◌
  prove_bits_total i [] random_values below values suitable = ([], refl, tt)
  prove_bits_total i (bit ∷ b_bin) [] below values suitable = ([], refl, tt)
  prove_bits_total i (bit ∷ b_bin) (r_inn ∷ random_values) (small, below) (value, values)
        (one, suitable) =
      let (v, proof, proved, (known, _)) =
        prove_bit_total c laws r_inn g1 g2 (felt_add prefix i) (coins i) value (felts i) bit small
          one in
      let (rest, proved_rest, all_seen) =
        prove_bits_total (suc i) b_bin random_values below values suitable in
      (
        (v, proof, r_inn) ∷ rest,
        rw (proved, proved_rest) refl,
        (seen c laws v (multiple_pair c bit g1 r_inn g2) known one.commitment, all_seen),
      )

  accumulate_total :
      (i r : ℕ) (results : List (BitResult Point))
      → All (λ result. Visible c result.0) results
      → (proved : Range × ℕ) × (accumulate c g1 g2 prefix i r results ≡ ok proved)
  unfolding accumulate ◌>>=◌
  accumulate_total i r [] h = ((record { commitments = []; proofs = [] }, r), refl)
  accumulate_total i r ((v, proof, r_inn) ∷ results) (seen_v, h) =
      let (commitment, stored) = try_from_projective_total c v seen_v in
      let (rest, accumulated) =
        accumulate_total (suc i) (scalar_add r (scalar_mul (2 ^ i) r_inn)) results h in
      (push commitment proof rest, rw (stored, accumulated) refl)

  -- A number that has at least one bit and at most 128 gets a proof, when there are as many random
  -- felts and the points of each bit are finite. The randomness that is returned is the one that
  -- `compute_total_randomness` gives, and verification returns the commitment to the number under
  -- that randomness, unless a multiple of the second base by a response of a bit's proof is the
  -- point at infinity. The first base is finite, and what is drawn for the bits are felts.
  pub prove_with_randomness_total :
      (b bit_size : ℕ) (random_values : List ℕ)
      → 0 < bit_size
      → bit_size ≤ 128
      → b < 2 ^ bit_size
      → length random_values ≡ bit_size
      → IsFelt prefix
      → All IsFelt random_values
      → AllFinite 0 (bits bit_size b) random_values
      → (range : Range) × (r : ℕ) × (prove_with_randomness c g1 g2 prefix coins b bit_size
            random_values
          ≡ ok (range, r))
        × (compute_total_randomness random_values ≡ ok r)
        × ((verify_range c g1 g2 prefix range bit_size ≡ some (ok (multiple_pair c b g1 r g2)))
            ⊎ AnyDegenerate c laws g1 g2 finite prefix coins felts range.proofs)
  unfolding prove_with_randomness ◌>>=◌
  prove_with_randomness_total b n random_values positive fits small same hp values suitable =
      let (results, proved, all_seen) =
        prove_bits_total 0 (bits n b) random_values (bits_below n b) values suitable in
      let ((range, r), accumulated) = accumulate_total 0 0 results all_seen in
      let returned : prove_with_randomness c g1 g2 prefix coins b n random_values ≡ ok (range, r) =
        rw
          (
            le→leb n 128 fits,
            eq→== (length random_values) n same,
            lt-max_value b n small,
            proved,
            accumulated,
          )
          refl in
      let (_, total, verified) =
        prove_with_randomness-verify_range c laws g1 g2 finite prefix coins felts b n random_values
          positive hp values returned in
      (range, r, returned, total, verified)
