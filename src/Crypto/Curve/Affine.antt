-- ===== src/Crypto/Curve/Affine.antt =====
-- Points that have coordinates, in crates/crypto/src/curve.rs and crates/common/src/types.rs.
use krusty_kms.Prelude.{
  ℕ, ◌≡◌, refl, sym, ap, ap₂, ◌∙◌, subst, some, true, false, ◌≢◌, ◌⊎◌, inl, inr, arith, eq→==,
}
use krusty_kms.Prelude.Assoc.{Option-cases, some_injective}
use krusty_kms.Common.Error.{
  ok, point_at_infinity, KmsError, ok-injective, >>=-eq-ok, ok_or-eq-ok, ◌>>=◌,
}
use krusty_kms.Crypto.Curve.{
  Curve, IsGroup, SerializablePoint, projective_to_affine, try_from_projective, load, negate,
  same_affine, same_coordinates, is_none, is_infinity,
}

module _ (c : Curve) where
  open c use {Point, identity, add, to_affine, from_affine}

  -- The point has affine coordinates.
  abbrev pub Visible : Point → Type 0
  Visible p = (xy : ℕ × ℕ) × (to_affine p ≡ some xy)

  pub affine_of : (p : Point) → Visible p → (xy : ℕ × ℕ) × (projective_to_affine c p ≡ ok xy)
  unfolding projective_to_affine
  affine_of p (xy, h) = (xy, rw h)

  coordinates_of :
      (p : Point) {xy : ℕ × ℕ} → projective_to_affine c p ≡ ok xy → to_affine p ≡ some xy
  unfolding projective_to_affine
  coordinates_of p h = ok_or-eq-ok (to_affine p) point_at_infinity h

  pub visible : (p : Point) {xy : ℕ × ℕ} → projective_to_affine c p ≡ ok xy → Visible p
  visible p {xy} h = (xy, coordinates_of p h)

  pub Visible-is_infinity : (p : Point) → Visible p → is_infinity c p ≡ false
  unfolding is_infinity
  Visible-is_infinity p (xy, h) = ap is_none h

  pub serialized-Visible :
      (p : Point) {s : SerializablePoint} → try_from_projective c p ≡ ok s → Visible p
  unfolding try_from_projective
  serialized-Visible p h =
      let (_, found, _) = >>=-eq-ok (projective_to_affine c p) _ h in visible p found

  pub try_from_projective_total :
      (p : Point) → Visible p → (s : SerializablePoint) × (try_from_projective c p ≡ ok s)
  unfolding try_from_projective ◌>>=◌
  try_from_projective_total p v =
      let (xy, h) = affine_of p v in (record { x = xy.0; y = xy.1 }, rw h)

  pub same_coordinates_self : (xy : ℕ × ℕ) → same_coordinates c xy xy ≡ true
  same_coordinates_self (x, y) = rw (eq→== x x refl, eq→== y y refl)

  both_eq : (a b : ℕ × ℕ) → same_coordinates c a b ≡ true → (a.0 ≡ b.0) × (a.1 ≡ b.1)
  both_eq a b h = ground arith

  pub same_affine_self : (p : Point) → Visible p → same_affine c p p ≡ ok true
  unfolding same_affine ◌>>=◌
  same_affine_self p v = let (xy, h) = affine_of p v in rw h (ap ok (same_coordinates_self xy))

  pub same_affine-eq : (p q : Point) → p ≡ q → Visible p → same_affine c p q ≡ ok true
  same_affine-eq p q e v = subst (λ r. same_affine c p r ≡ ok true) e (same_affine_self p v)

  module _ (laws : IsGroup c) where
    pub Visible-or-identity : (p : Point) → Visible p ⊎ (p ≡ identity)
    Visible-or-identity p = elim (Option-cases (to_affine p)) [
      | inl hidden ↦ inr (laws.finite p hidden)
      | inr found ↦ inl found
    ]

    pub ne_identity-Visible : (p : Point) → p ≢ identity → Visible p
    ne_identity-Visible p h = elim (Option-cases (to_affine p)) [
      | inl hidden ↦ absurd (h (laws.finite p hidden))
      | inr found ↦ found
    ]

    -- Points with the same coordinates are the same.
    pub same_coordinates-true :
        (p q : Point) {a b : ℕ × ℕ}
        → projective_to_affine c p ≡ ok a
        → projective_to_affine c q ≡ ok b
        → same_coordinates c a b ≡ true
        → p ≡ q
    same_coordinates-true p q {a} {b} found_p found_q same =
        let (same_x, same_y) = both_eq a b same in
        let known_p = laws.from_affine-to_affine p a.0 a.1 (coordinates_of p found_p) in
        let known_q = laws.from_affine-to_affine q b.0 b.1 (coordinates_of q found_q) in
        some_injective (sym known_p ∙ ap₂ from_affine same_x same_y ∙ known_q)

    pub same_affine-true : (p q : Point) → same_affine c p q ≡ ok true → p ≡ q
    unfolding same_affine
    same_affine-true p q h =
        let (a, found_p, rest) = >>=-eq-ok (projective_to_affine c p) _ h in
        let (b, found_q, done) = >>=-eq-ok (projective_to_affine c q) _ rest in
        same_coordinates-true p q found_p found_q (ok-injective _ _ done)

    pub is_infinity-identity : is_infinity c identity ≡ true
    unfolding is_infinity
    is_infinity-identity = ap is_none laws.infinite

    -- What is serialized is what is loaded.
    pub load-try_from_projective :
        (p : Point) {s : SerializablePoint} → try_from_projective c p ≡ ok s → load c s ≡ ok p
    unfolding try_from_projective load
    load-try_from_projective p h =
        let (xy, found, done) = >>=-eq-ok (projective_to_affine c p) _ h in
        let fields = ok-injective _ _ done in
        let known = laws.from_affine-to_affine p xy.0 xy.1 (coordinates_of p found) in
        rw (← fields, known) refl

    pub negate-inverse :
        (kind : KmsError) (p : Point) {q : Point} → negate c kind p ≡ ok q → add p q ≡ identity
    unfolding negate
    negate-inverse kind p {q} h =
        let (xy, found, done) = >>=-eq-ok (projective_to_affine c p) _ h in
        let (q', known, inverse) = laws.negation p xy.0 xy.1 (coordinates_of p found) in
        let same : q' ≡ q = some_injective (sym known ∙ ok_or-eq-ok _ kind done) in
        subst (λ r. add p r ≡ identity) same inverse

    pub negate_total :
        (kind : KmsError) (p : Point) → Visible p → (q : Point) × (negate c kind p ≡ ok q)
    unfolding negate projective_to_affine ◌>>=◌
    negate_total kind p (xy, h) =
        let (q, known, _) = laws.negation p xy.0 xy.1 h in (q, rw (h, known) refl)
