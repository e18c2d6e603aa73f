-- ===== src/Crypto/Curve.antt =====
-- crates/crypto/src/curve.rs, with `SerializablePoint` of crates/common/src/types.rs. The points and
-- hashes of the starknet-types-core crate are the record `Curve`; `IsGroup` is what is known of them.
pub mod Group
pub mod Affine
pub mod Multiplication
use krusty_kms.Prelude.{
  ℕ, zero, suc, ◌/◌, ◌%◌, ◌<◌, ◌≡◌, List, [], ◌∷◌, Option, none, some, Bool, true, false, ◌&&◌,
  ◌==◌, if◌then◌else◌, Bytes, to_le_bytes,
}
use krusty_kms.Common.Error.{Result, ok, err, ok_or, point_at_infinity, invalid_public_key, ◌>>=◌}
use krusty_kms.Common.Error.{KmsError}
use krusty_kms.Crypto.Scalar.{IsFelt, curve_order}

-- `to_affine` of a projective point, `from_affine` with its check that the point is on the curve, the
-- negation of a felt, `==` and `-` of points, and the two hashes.
pub record Curve : Type 1 where
  pub Point : Type 0
  pub identity : Point
  pub add : Point → Point → Point
  pub sub : Point → Point → Point
  pub same : Point → Point → Bool
  pub to_affine : Point → Option (ℕ × ℕ)
  pub from_affine : ℕ → ℕ → Option Point
  pub neg_felt : ℕ → ℕ
  pub generator : Point
  pub poseidon : List ℕ → ℕ
  pub pedersen : ℕ → ℕ → ℕ

-- `n` times a point.
unfoldable pub multiple : (c : Curve) → ℕ → c.Point → c.Point
multiple c zero p = c.identity
multiple c (suc n) p = c.add p (multiple c n p)

-- The points are an Abelian group whose exponent is the order, and exactly its identity has no
-- affine form; the affine form determines the point, and its negation is the inverse. The
-- generator's multiples below the order differ.
pub record IsGroup (c : Curve) : Type 0 where
  pub add_assoc : (p q r : c.Point) → c.add (c.add p q) r ≡ c.add p (c.add q r)
  pub add_comm : (p q : c.Point) → c.add p q ≡ c.add q p
  pub add-identity : (p : c.Point) → c.add p c.identity ≡ p
  pub sub-add : (p q : c.Point) → c.sub (c.add p q) q ≡ p
  pub multiple-order : (p : c.Point) → multiple c curve_order p ≡ c.identity
  pub add-sub : (p q : c.Point) → c.add (c.sub p q) q ≡ p
  pub same-true : (p q : c.Point) → c.same p q ≡ true → p ≡ q
  pub same_self : (p : c.Point) → c.same p p ≡ true
  pub finite : (p : c.Point) → c.to_affine p ≡ none → p ≡ c.identity
  pub infinite : c.to_affine c.identity ≡ none
  pub generator-injective :
      (n m : ℕ)
      → n < curve_order
      → m < curve_order
      → multiple c n c.generator ≡ multiple c m c.generator
      → n ≡ m
  pub from_affine-to_affine :
      (p : c.Point) (x y : ℕ) → c.to_affine p ≡ some (x, y) → c.from_affine x y ≡ some p
  pub negation :
      (p : c.Point) (x y : ℕ)
      → c.to_affine p ≡ some (x, y)
      → (q : c.Point) × (c.from_affine x (c.neg_felt y) ≡ some q) × (c.add p q ≡ c.identity)
  pub pedersen-IsFelt : (a b : ℕ) → IsFelt (c.pedersen a b)

pub record SerializablePoint : Type 0 where
  pub x : ℕ
  pub y : ℕ

abbrev pub is_none : {A : Type 0} → Option A → Bool
is_none none = true
is_none (some _) = false

module _ (c : Curve) where
  open c use {Point, identity, add, to_affine, from_affine, neg_felt}

  -- `ct_select_point`
  abbrev pub select_point : Bool → Point → Point → Point
  select_point choice a b = if choice then a else b

  -- The eight rounds for a byte, lowest bit first: `byte >> i` by halving. Returns `result`, `temp`.
  unfoldable pub mul_bits : ℕ → ℕ → Point → Point → Point × Point
  mul_bits zero byte result temp = (result, temp)
  mul_bits (suc rounds) byte result temp =
      mul_bits rounds (byte / 2) (select_point (byte % 2 == 1) (add result temp) result)
        (add temp temp)

  unfoldable pub mul_bytes : Bytes → Point → Point → Point × Point
  mul_bytes [] result temp = (result, temp)
  mul_bytes (byte ∷ bytes) result temp =
      let (result', temp') = mul_bits 8 byte result temp in mul_bytes bytes result' temp'

  -- `StarkCurve::mul`: the bytes of `to_bytes_be`, last to first.
  unfoldable pub mul : ℕ → Point → Point
  mul scalar point = (mul_bytes (to_le_bytes 32 scalar) identity point).0

  unfoldable pub projective_to_affine : Point → Result (ℕ × ℕ)
  projective_to_affine p = ok_or (to_affine p) point_at_infinity

  unfoldable pub is_infinity : Point → Bool
  is_infinity p = is_none (to_affine p)

  unfoldable pub try_from_projective : Point → Result SerializablePoint
  try_from_projective p = do xy ← projective_to_affine p; ok (record { x = xy.0; y = xy.1 })

  -- `SerializablePoint::to_affine`, and the projective point of what it returns.
  unfoldable pub load : SerializablePoint → Result Point
  load s = ok_or (from_affine s.x s.y) invalid_public_key

  -- The inverse of a point, by the negation of its `y`; the error is the caller's.
  unfoldable pub negate : KmsError → Point → Result Point
  negate kind p = do xy ← projective_to_affine p; ok_or (from_affine xy.0 (neg_felt xy.1)) kind

  abbrev pub same_coordinates : ℕ × ℕ → ℕ × ℕ → Bool
  same_coordinates a b = a.0 == b.0 && a.1 == b.1

  -- `lhs_affine == rhs_affine`
  unfoldable pub same_affine : Point → Point → Result Bool
  same_affine lhs rhs = do
    l ← projective_to_affine lhs
    r ← projective_to_affine rhs
    ok (same_coordinates l r)
