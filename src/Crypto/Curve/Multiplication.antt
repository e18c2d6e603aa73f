-- ===== src/Crypto/Curve/Multiplication.antt =====
-- `StarkCurve::mul` of crates/crypto/src/curve.rs computes multiples.
use native.Mathlib.Nat.{pow-suc}
use krusty_kms.Prelude.{
  ℕ, zero, suc, ◌+◌, ◌*◌, ◌/◌, ◌%◌, ◌^◌, ◌<◌, ◌≡◌, sym, ap, ap₂, ◌∙◌, ◌==◌, [], ◌∷◌, Bytes,
  AllBytes, to_le_bytes, from_le_bytes, from_le_bytes-to_le_bytes, to_le_bytes-AllBytes, arith,
}
use krusty_kms.Crypto.Scalar.{IsFelt}
use krusty_kms.Crypto.Curve.{Curve, IsGroup, multiple, mul_bits, mul_bytes, mul, select_point}
use krusty_kms.Crypto.Curve.Group.{identity-add, multiple_one, multiple-plus, multiple-times}

module _ (c : Curve) (laws : IsGroup c) where
  open c use {Point, identity, add}

  -- A bit chooses whether the point is added.
  selected :
      (bit : ℕ) (r t : Point)
      → bit < 2
      → select_point c (bit == 1) (add r t) r ≡ add r (multiple c bit t)
  unfolding multiple
  selected zero r t h = sym (laws.add-identity r)
  selected (suc zero) r t h = ap (add r) (sym (laws.add-identity t))
  selected (suc (suc n)) r t h = absurd (omega arith)

  twice : (t : Point) → add t t ≡ multiple c 2 t
  unfolding multiple
  twice t = ap (add t) (sym (laws.add-identity t))

  halves :
      (n : ℕ) (t : Point)
      → add (multiple c (n % 2) t) (multiple c (n / 2) (add t t)) ≡ multiple c n t
  halves n t =
      let parts : n % 2 + n / 2 * 2 ≡ n = omega arith in
      ap (λ q. add (multiple c (n % 2) t) (multiple c (n / 2) q)) (twice t)
      ∙ ap (add (multiple c (n % 2) t)) (sym (multiple-times c laws (n / 2) 2 t))
      ∙ sym (multiple-plus c laws (n % 2) (n / 2 * 2) t)
      ∙ ap (λ k. multiple c k t) parts

  first_part :
      (byte : ℕ) (r t : Point)
      → add (select_point c (byte % 2 == 1) (add r t) r) (multiple c (byte / 2) (add t t))
        ≡ add r (multiple c byte t)
  first_part byte r t =
      ap (λ q. add q (multiple c (byte / 2) (add t t))) (selected (byte % 2) r t (omega arith))
      ∙ laws.add_assoc r (multiple c (byte % 2) t) (multiple c (byte / 2) (add t t))
      ∙ ap (add r) (halves byte t)

  doublings :
      (rounds : ℕ) (t : Point) → multiple c (2 ^ rounds) (add t t) ≡ multiple c (2 ^ suc rounds) t
  doublings rounds t =
      let power : 2 ^ rounds * 2 ≡ 2 ^ suc rounds = omega (arith, pow-suc 2 rounds) in
      ap (multiple c (2 ^ rounds)) (twice t)
      ∙ sym (multiple-times c laws (2 ^ rounds) 2 t)
      ∙ ap (λ k. multiple c k t) power

  mul_bits-multiple :
      (rounds byte : ℕ) (r t : Point)
      → byte < 2 ^ rounds
      → mul_bits c rounds byte r t ≡ (add r (multiple c byte t), multiple c (2 ^ rounds) t)
  unfolding mul_bits multiple
  mul_bits-multiple zero byte r t h =
      let none_left : byte ≡ 0 = omega arith in
      ap₂ (λ a b. (a, b))
        (sym (laws.add-identity r) ∙ ap (λ k. add r (multiple c k t)) (sym none_left))
        (sym (multiple_one c laws t))
  mul_bits-multiple (suc rounds) byte r t h =
      let r' = select_point c (byte % 2 == 1) (add r t) r in
      mul_bits-multiple rounds (byte / 2) r' (add t t) (omega (arith, pow-suc 2 rounds))
      ∙ ap₂ (λ a b. (a, b)) (first_part byte r t) (doublings rounds t)

  mul_bytes-multiple :
      (bytes : Bytes) (r t : Point)
      → AllBytes bytes
      → (mul_bytes c bytes r t).0 ≡ add r (multiple c (from_le_bytes bytes) t)
  unfolding mul_bytes multiple
  mul_bytes-multiple [] r t h = sym (laws.add-identity r)
  mul_bytes-multiple (byte ∷ bytes) r t (hb, hs) =
      ap (λ (s : Point × Point). (mul_bytes c bytes s.0 s.1).0) (mul_bits-multiple 8 byte r t hb)
      ∙ mul_bytes-multiple bytes (add r (multiple c byte t)) (multiple c 256 t) hs
      ∙ laws.add_assoc r (multiple c byte t) _
      ∙ ap (add r) (
          ap (add (multiple c byte t)) (sym (multiple-times c laws (from_le_bytes bytes) 256 t))
          ∙ sym (multiple-plus c laws byte (from_le_bytes bytes * 256) t)
          ∙ ap (λ k. multiple c k t)
              (let e : byte + from_le_bytes bytes * 256 ≡ byte + 256 * from_le_bytes bytes =
                  omega arith in
                e))

  -- `StarkCurve::mul`, the double-and-add loop over the bytes of a felt, returns that many times the
  -- point, for every felt and every point.
  pub mul-multiple : (scalar : ℕ) (p : Point) → IsFelt scalar → mul c scalar p ≡ multiple c scalar p
  unfolding mul
  mul-multiple scalar p h =
      mul_bytes-multiple (to_le_bytes 32 scalar) identity p (to_le_bytes-AllBytes 32 scalar)
      ∙ identity-add c laws _
      ∙ ap (λ k. multiple c k p) (from_le_bytes-to_le_bytes 32 scalar (omega arith))
