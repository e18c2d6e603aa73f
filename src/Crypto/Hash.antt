-- ===== src/Crypto/Hash.antt =====
-- crates/crypto/src/hash.rs: the challenges of the Fiat-Shamir transform.
use krusty_kms.Prelude.{ℕ, List, [], ◌∷◌, ◌≡◌, refl, All}
use krusty_kms.Common.Error.{Result, ok, ◌>>=◌, >>=-eq-ok, ok-injective}
use krusty_kms.Crypto.Scalar.{reduce_scalar, IsFelt, reduce_scalar-IsFelt}
use krusty_kms.Crypto.Curve.{Curve, IsGroup, projective_to_affine}
use krusty_kms.Crypto.Curve.Affine.{Visible, affine_of}

module _ (c : Curve) where
  open c use {Point, poseidon, pedersen}

  unfoldable pub compute_challenge : ℕ → List Point → Result ℕ
  compute_challenge current [] = ok current
  compute_challenge current (p ∷ points) = do
    xy ← projective_to_affine c p
    compute_challenge (pedersen (pedersen current xy.0) xy.1) points

  unfoldable pub coordinates : List Point → Result (List ℕ)
  coordinates [] = ok []
  coordinates (p ∷ points) = do
    xy ← projective_to_affine c p
    rest ← coordinates points
    ok (xy.0 ∷ (xy.1 ∷ rest))

  unfoldable pub compute_poseidon_challenge : ℕ → List Point → Result ℕ
  compute_poseidon_challenge prefix points = do
    felts ← coordinates points
    ok (reduce_scalar (poseidon (prefix ∷ felts)))

  pub poseidon_challenge-IsFelt :
      (prefix : ℕ) (points : List Point) {e : ℕ}
      → compute_poseidon_challenge prefix points ≡ ok e
      → IsFelt e
  unfolding compute_poseidon_challenge
  poseidon_challenge-IsFelt prefix points h =
      let (felts, _, done) = >>=-eq-ok (coordinates points) _ h in
      rw (← ok-injective _ _ done) (reduce_scalar-IsFelt (poseidon (prefix ∷ felts)))

  pub coordinates_total :
      (points : List Point) → All (Visible c) points → (xs : List ℕ) × (coordinates points ≡ ok xs)
  unfolding coordinates ◌>>=◌
  coordinates_total [] h = ([], refl)
  coordinates_total (p ∷ points) (v, h) =
      let (xy, found) = affine_of c p v in
      let (rest, found_rest) = coordinates_total points h in
      (xy.0 ∷ (xy.1 ∷ rest), rw (found, found_rest) refl)

  pub poseidon_challenge_total :
      (prefix : ℕ) (points : List Point)
      → All (Visible c) points
      → (e : ℕ) × (compute_poseidon_challenge prefix points ≡ ok e)
  unfolding compute_poseidon_challenge ◌>>=◌
  poseidon_challenge_total prefix points h =
      let (felts, found) = coordinates_total points h in
      (reduce_scalar (poseidon (prefix ∷ felts)), rw found refl)

  pub compute_challenge_total :
      (prefix : ℕ) (points : List Point)
      → All (Visible c) points
      → (e : ℕ) × (compute_challenge prefix points ≡ ok e)
  unfolding compute_challenge ◌>>=◌
  compute_challenge_total prefix [] h = (prefix, refl)
  compute_challenge_total prefix (p ∷ points) (v, h) =
      let (xy, found) = affine_of c p v in
      let (e, rest) = compute_challenge_total (pedersen (pedersen prefix xy.0) xy.1) points h in
      (e, rw found rest)

  module _ (laws : IsGroup c) where
    challenge-IsFelt :
        (current : ℕ) (points : List Point) {e : ℕ}
        → IsFelt current
        → compute_challenge current points ≡ ok e
        → IsFelt e
    unfolding compute_challenge
    challenge-IsFelt current [] small h = rw (← ok-injective _ _ h) small
    challenge-IsFelt current (p ∷ points) small h =
        let (xy, _, rest) = >>=-eq-ok (projective_to_affine c p) _ h in
        challenge-IsFelt (pedersen (pedersen current xy.0) xy.1) points
          (laws.pedersen-IsFelt (pedersen current xy.0) xy.1) rest

    pub compute_challenge-IsFelt :
        (prefix : ℕ) (p : Point) (points : List Point) {e : ℕ}
        → compute_challenge prefix (p ∷ points) ≡ ok e
        → IsFelt e
    unfolding compute_challenge
    compute_challenge-IsFelt prefix p points h =
        let (xy, _, rest) = >>=-eq-ok (projective_to_affine c p) _ h in
        challenge-IsFelt (pedersen (pedersen prefix xy.0) xy.1) points
          (laws.pedersen-IsFelt (pedersen prefix xy.0) xy.1) rest
