-- ===== src/Crypto/Range/Stepping.antt =====
-- The bit by bit loops of crates/crypto/src/range.rs, the prover's and the verifier's, side by side.
use native.Mathlib.Nat.{pow-suc, pow-le-pow_right, one-le-pow}
use krusty_kms.Prelude.{
  ℕ, zero, suc, ◌+◌, ◌*◌, ◌/◌, ◌^◌, ◌%◌, ◌≤◌, ◌<◌, ◌≡◌, refl, sym, ap, ap₂, ◌∙◌, List, [], ◌∷◌,
  true, leb, ◌==◌, ◌≢◌, subst, arith, ◌⊎◌, inl, inr, length, All, ==→eq, Bool-cases, ◌-◌,
}
use krusty_kms.Common.Error.{ok, ◌>>=◌, >>=-eq-ok, ok-injective}
use krusty_kms.Crypto.Scalar.{IsFelt, felt_add, scalar_add, scalar_mul}
use krusty_kms.Crypto.Curve.{
  Curve, IsGroup, multiple, mul, try_from_projective, load, SerializablePoint,
}
use krusty_kms.Crypto.Curve.Group.{
  multiple-response, multiple-times, multiple-plus, multiple-add, add_interchange,
}
use krusty_kms.Crypto.Curve.Multiplication.{mul-multiple}
use krusty_kms.Crypto.Curve.Affine.{load-try_from_projective}
use krusty_kms.Crypto.Poe2.Accepting.{multiple_pair}
use krusty_kms.Crypto.Bit.{ProofOfBit, BitCoins, prove_bit, verify_bit}
use krusty_kms.Crypto.Bit.Accepting.{AreFelts, IsDegenerate, prove_bit-IsProved}
use krusty_kms.Crypto.Range.{
  bit_weight, Range, add_randomness, bits, max_value, BitResult, push, prove_bits, accumulate,
  verify_rest,
}

-- The number that bits stand for, lowest first.
abbrev pub from_bits : List ℕ → ℕ
from_bits [] = 0
from_bits (b ∷ bs) = b + 2 * from_bits bs

pub from_bits-bits : (n b : ℕ) → b < 2 ^ n → from_bits (bits n b) ≡ b
unfolding bits
from_bits-bits zero b h = omega arith
from_bits-bits (suc n) b h =
    let fits : b / 2 < 2 ^ n = omega (arith, pow-suc 2 n) in
    omega (arith, from_bits-bits n (b / 2) fits)

pub length-bits : (n b : ℕ) → length (bits n b) ≡ n
unfolding bits
length-bits zero b = refl
length-bits (suc n) b = ap suc (length-bits n (b / 2))

pub leb→le : (a b : ℕ) → leb a b ≡ true → a ≤ b
leb→le a b h = ground arith

pub le→leb : (a b : ℕ) → a ≤ b → leb a b ≡ true
le→leb a b h = ground arith

pub max_value_lt : (b n : ℕ) → leb b (max_value n) ≡ true → b < 2 ^ n
max_value_lt b n h = elim (Bool-cases (n == 128)) [
  | inl full ↦
      let e : n ≡ 128 = ==→eq n 128 full in
      let le = leb→le b (2 ^ 128 - 1) (rw full at h) in rw e (omega (arith, le))
  | inr partial ↦
      let le = leb→le b (2 ^ n - 1) (rw partial at h) in
      omega (arith, le, one-le-pow n 2 (omega arith))
]

power_fits : (i : ℕ) → i ≤ 128 → IsFelt (2 ^ i)
power_fits i h = let le : 2 ^ i ≤ 2 ^ 128 = pow-le-pow_right (omega arith) h in omega arith

bit_weight_lem : (i : ℕ) → i < 128 → bit_weight i ≡ 2 ^ i
bit_weight_lem i h = let e : i % 128 ≡ i = omega arith in ap (λ k. 2 ^ k) e

next_weight :
    (total weight bit i : ℕ)
    → total + 2 ^ i * bit + 2 ^ suc i * weight ≡ total + 2 ^ i * (bit + 2 * weight)
next_weight total weight bit i = rw (pow-suc 2 i) (grind arith)

module _ (c : Curve) (laws : IsGroup c) (g1 g2 : c.Point) (finite : g1 ≢ c.identity) (prefix : ℕ)
    (coins : ℕ → BitCoins) (felts : (i : ℕ) → AreFelts (coins i)) where
  open c use {Point, identity, add}

  abbrev pub AnyDegenerate : List ProofOfBit → Type 0
  AnyDegenerate [] = ⊥
  AnyDegenerate (proof ∷ proofs) = IsDegenerate c laws g2 proof ⊎ AnyDegenerate proofs

  -- A weighted commitment is added to a commitment.
  weighted :
      (i total bit r r_inn : ℕ) (v_total v : Point)
      → i < 128
      → v_total ≡ multiple_pair c total g1 r g2
      → v ≡ multiple_pair c bit g1 r_inn g2
      → add v_total (mul c (bit_weight i) v)
        ≡ multiple_pair c (total + 2 ^ i * bit) g1 (scalar_add r (scalar_mul (2 ^ i) r_inn)) g2
  weighted i total bit r r_inn v_total v small known_total known =
      let weight = 2 ^ i in
      let bit1 = multiple c bit g1 in
      let r2 = multiple c r_inn g2 in
      ap₂ (λ p q. add p q) known_total
        (ap (λ w. mul c w v) (bit_weight_lem i small)
          ∙ mul-multiple c laws weight v (power_fits i (omega (arith, small)))
          ∙ ap (multiple c weight) known
          ∙ multiple-add c laws weight bit1 r2)
      ∙ add_interchange c laws (multiple c total g1) (multiple c r g2) (multiple c weight bit1)
          (multiple c weight r2)
      ∙ ap₂ add
          (ap (add (multiple c total g1)) (sym (multiple-times c laws weight bit g1))
            ∙ sym (multiple-plus c laws total (weight * bit) g1))
          (sym (multiple-response c laws r weight r_inn g2))

  -- What is proved from the bit `i` on is the sum of the randomness, and verifies.
  abbrev pub Verifies : ℕ → ℕ → ℕ → Point → List ℕ → List ℕ → Range × ℕ → Type 0
  Verifies i total r v_total b_bin random_values proved =
      (proved.1 ≡ add_randomness i r random_values)
      × (length proved.0.commitments ≡ length b_bin)
      × (length proved.0.proofs ≡ length b_bin)
      × ((verify_rest c g1 g2 prefix i v_total proved.0.commitments proved.0.proofs
            ≡ ok (multiple_pair c (total + 2 ^ i * from_bits b_bin) g1 proved.1 g2))
          ⊎ AnyDegenerate proved.0.proofs)

  verified_nil :
      (i total r : ℕ) (v_total : Point)
      → v_total ≡ multiple_pair c total g1 r g2
      → Verifies i total r v_total [] [] (record { commitments = []; proofs = [] }, r)
  unfolding verify_rest add_randomness
  verified_nil i total r v_total known =
      let e : total ≡ total + 2 ^ i * 0 = omega arith in
      (refl, refl, refl, inl (ap ok (known ∙ ap (λ t. multiple_pair c t g1 r g2) e)))

  -- One bit more, in front.
  verified_cons :
      (i total r bit r_inn : ℕ) (v_total v : Point) (b_bin random_values : List ℕ)
      (commitment : SerializablePoint) (proof : ProofOfBit) (rest : Range × ℕ)
      → load c commitment ≡ ok v
      → (verify_bit c v g1 g2 proof (felt_add prefix i) ≡ ok true) ⊎ IsDegenerate c laws g2 proof
      → Verifies
          (suc i)
          (total + 2 ^ i * bit)
          (scalar_add r (scalar_mul (2 ^ i) r_inn))
          (add v_total (mul c (bit_weight i) v))
          b_bin
          random_values
          rest
      → Verifies i total r v_total
          (bit ∷ b_bin)
          (r_inn ∷ random_values)
          (push commitment proof rest)
  unfolding verify_rest add_randomness ◌>>=◌
  verified_cons i total r bit r_inn v_total v b_bin random_values commitment proof rest loaded
        accepted (sum, lengths_c, lengths_p, verified) =
      (
        sum,
        ap suc lengths_c,
        ap suc lengths_p,
        elim accepted [
          | inl good ↦ elim verified [
            | inl verifies ↦ inl (
                rw (loaded, good)
                  (verifies
                    ∙ ap (λ t. ok (multiple_pair c t g1 rest.1 g2))
                        (next_weight total (from_bits b_bin) bit i)))
            | inr degenerate ↦ inr (inr degenerate)
          ]
          | inr degenerate ↦ inr (inl degenerate)
        ],
      )

  -- What the prover does with the bit `i`, and with those after it.
  pub record Step (i r bit r_inn : ℕ) (b_bin random_values : List ℕ) (proved : Range × ℕ)
      : Type 0 where
    pub v : Point
    pub proof : ProofOfBit
    pub commitment : SerializablePoint
    pub rest : List (BitResult Point)
    pub out : Range × ℕ
    pub is_commitment : v ≡ multiple_pair c bit g1 r_inn g2
    pub loaded : load c commitment ≡ ok v
    pub accepted :
        (verify_bit c v g1 g2 proof (felt_add prefix i) ≡ ok true) ⊎ IsDegenerate c laws g2 proof
    pub proved_rest : prove_bits c g1 g2 prefix coins (suc i) b_bin random_values ≡ ok rest
    pub accumulated_rest :
        accumulate c g1 g2 prefix (suc i) (scalar_add r (scalar_mul (2 ^ i) r_inn)) rest ≡ ok out
    pub pushed : push commitment proof out ≡ proved

  pub peel :
      (i r bit r_inn : ℕ) (b_bin random_values : List ℕ) {results : List (BitResult Point)}
      {proved : Range × ℕ}
      → IsFelt r_inn
      → prove_bits c g1 g2 prefix coins i (bit ∷ b_bin) (r_inn ∷ random_values) ≡ ok results
      → accumulate c g1 g2 prefix i r results ≡ ok proved
      → Step i r bit r_inn b_bin random_values proved
  unfolding prove_bits accumulate
  peel i r bit r_inn b_bin random_values {results} {proved} value h accumulated =
      let r' = scalar_add r (scalar_mul (2 ^ i) r_inn) in
      let (vp, proved1, h1) =
        >>=-eq-ok (prove_bit c bit r_inn g1 g2 (felt_add prefix i) (coins i)) _ h in
      let (rest, proved2, done) =
        >>=-eq-ok (prove_bits c g1 g2 prefix coins (suc i) b_bin random_values) _ h1 in
      let accumulated' =
        subst (λ rs. accumulate c g1 g2 prefix i r rs ≡ ok proved)
          (sym (ok-injective _ results done)) accumulated in
      let (commitment, stored, h2) = >>=-eq-ok (try_from_projective c vp.0) _ accumulated' in
      let (out, accumulated_rest, pushed) =
        >>=-eq-ok (accumulate c g1 g2 prefix (suc i) r' rest) _ h2 in
      let (_, (is_commitment, accepted)) =
        prove_bit-IsProved c laws r_inn g1 g2 (felt_add prefix i) (coins i) value (felts i) bit
          finite proved1 in
      record {
        v = vp.0;
        proof = vp.1;
        commitment = commitment;
        rest = rest;
        out = out;
        is_commitment = is_commitment;
        loaded = load-try_from_projective c laws vp.0 stored;
        accepted = accepted;
        proved_rest = proved2;
        accumulated_rest = accumulated_rest;
        pushed = ok-injective _ proved pushed;
      }

  -- The loops of the prover and of the verifier, in step from the bit `i` on.
  pub verified_rest :
      (i total r : ℕ) (v_total : Point) (b_bin random_values : List ℕ)
      {results : List (BitResult Point)} {proved : Range × ℕ}
      → i + length b_bin ≤ 128
      → length random_values ≡ length b_bin
      → All IsFelt random_values
      → v_total ≡ multiple_pair c total g1 r g2
      → prove_bits c g1 g2 prefix coins i b_bin random_values ≡ ok results
      → accumulate c g1 g2 prefix i r results ≡ ok proved
      → Verifies i total r v_total b_bin random_values proved
  unfolding prove_bits accumulate
  verified_rest i total r v_total [] [] {results} {proved} fits same values known h accumulated =
      let none_proved = sym (ok-injective _ results h) in
      let done =
        subst (λ rs. accumulate c g1 g2 prefix i r rs ≡ ok proved) none_proved accumulated in
      subst (Verifies i total r v_total [] []) (ok-injective _ proved done)
        (verified_nil i total r v_total known)
  verified_rest i total r v_total [] (_ ∷ _) fits same values known h accumulated =
      absurd (omega arith)
  verified_rest i total r v_total (_ ∷ _) [] fits same values known h accumulated =
      absurd (omega arith)
  verified_rest i total r v_total (bit ∷ b_bin) (r_inn ∷ random_values) {results} {proved} fits same
        (value, values) known h accumulated =
      let step = peel i r bit r_inn b_bin random_values value h accumulated in
      let next_total =
        weighted i total bit r r_inn v_total step.v (omega (arith, fits)) known
          step.is_commitment in
      let verified_next =
        verified_rest (suc i) (total + 2 ^ i * bit) (scalar_add r (scalar_mul (2 ^ i) r_inn))
          (add v_total (mul c (bit_weight i) step.v)) b_bin random_values (omega (arith, fits))
          (omega (arith, same)) values next_total step.proved_rest step.accumulated_rest in
      subst (Verifies i total r v_total (bit ∷ b_bin) (r_inn ∷ random_values)) step.pushed (
        verified_cons i total r bit r_inn v_total step.v b_bin random_values step.commitment
          step.proof step.out step.loaded step.accepted verified_next)
