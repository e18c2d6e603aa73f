-- ===== src/Crypto/Curve/Group.antt =====
-- Multiples in the group of crates/crypto/src/curve.rs, and its points at infinity.
use krusty_kms.Prelude.{ℕ, zero, suc, ◌+◌, ◌*◌, ◌/◌, ◌%◌, ◌≡◌, refl, sym, ap, ap₂, ◌∙◌, arith}
use krusty_kms.Crypto.Scalar.{curve_order, reduce_scalar, scalar_add, scalar_sub, scalar_mul}
use krusty_kms.Crypto.Curve.{Curve, IsGroup, multiple}

module _ (c : Curve) (laws : IsGroup c) where
  open c use {Point, identity, add}

  pub identity-add : (p : Point) → add identity p ≡ p
  identity-add p = laws.add_comm identity p ∙ laws.add-identity p

  -- Sums of sums, regrouped.
  pub add_interchange : (p q r s : Point) → add (add p q) (add r s) ≡ add (add p r) (add q s)
  add_interchange p q r s =
      laws.add_assoc p q (add r s)
      ∙ ap (add p) (sym (laws.add_assoc q r s))
      ∙ ap (λ t. add p (add t s)) (laws.add_comm q r)
      ∙ ap (add p) (laws.add_assoc r q s)
      ∙ sym (laws.add_assoc p r (add q s))

  -- A point with an inverse can be cancelled.
  pub add-cancel : (p q r : Point) → add p r ≡ add q r → p ≡ q
  add-cancel p q r h = sym (laws.sub-add p r) ∙ ap (λ t. c.sub t r) h ∙ laws.sub-add q r

  pub add_swap : (p q r : Point) → add p (add q r) ≡ add q (add p r)
  add_swap p q r =
      sym (laws.add_assoc p q r) ∙ ap (λ t. add t r) (laws.add_comm p q) ∙ laws.add_assoc q p r

  pub multiple_one : (p : Point) → multiple c 1 p ≡ p
  unfolding multiple
  multiple_one p = laws.add-identity p

  pub multiple-identity : (n : ℕ) → multiple c n identity ≡ identity
  unfolding multiple
  multiple-identity zero = refl
  multiple-identity (suc n) = ap (add identity) (multiple-identity n) ∙ laws.add-identity identity

  pub multiple-plus :
      (n m : ℕ) (p : Point) → multiple c (n + m) p ≡ add (multiple c n p) (multiple c m p)
  unfolding multiple
  multiple-plus zero m p =
      ap (λ k. multiple c k p) (let e : 0 + m ≡ m = omega arith in e)
      ∙ sym (identity-add (multiple c m p))
  multiple-plus (suc n) m p =
      ap (λ k. multiple c k p) (let e : suc n + m ≡ suc (n + m) = omega arith in e)
      ∙ ap (add p) (multiple-plus n m p)
      ∙ sym (laws.add_assoc p (multiple c n p) (multiple c m p))

  pub multiple-add :
      (n : ℕ) (p q : Point) → multiple c n (add p q) ≡ add (multiple c n p) (multiple c n q)
  unfolding multiple
  multiple-add zero p q = sym (laws.add-identity identity)
  multiple-add (suc n) p q =
      ap (add (add p q)) (multiple-add n p q)
      ∙ add_interchange p q (multiple c n p) (multiple c n q)

  pub multiple-times : (n m : ℕ) (p : Point) → multiple c (n * m) p ≡ multiple c n (multiple c m p)
  unfolding multiple
  multiple-times zero m p = ap (λ k. multiple c k p) (let e : 0 * m ≡ 0 = omega arith in e)
  multiple-times (suc n) m p =
      ap (λ k. multiple c k p) (let e : suc n * m ≡ m + n * m = grind arith in e)
      ∙ multiple-plus m (n * m) p
      ∙ ap (add (multiple c m p)) (multiple-times n m p)

  multiple-order_times : (n : ℕ) (p : Point) → multiple c (n * curve_order) p ≡ identity
  multiple-order_times n p =
      multiple-times n curve_order p
      ∙ ap (multiple c n) (laws.multiple-order p)
      ∙ multiple-identity n

  -- The scalar counts modulo the order.
  pub multiple-mod : (n : ℕ) (p : Point) → multiple c (n % curve_order) p ≡ multiple c n p
  multiple-mod n p =
      let parts : n ≡ n / curve_order * curve_order + n % curve_order = omega arith in
      sym (
        ap (λ k. multiple c k p) parts
        ∙ multiple-plus (n / curve_order * curve_order) (n % curve_order) p
        ∙ ap (λ t. add t (multiple c (n % curve_order) p))
            (multiple-order_times (n / curve_order) p)
        ∙ identity-add (multiple c (n % curve_order) p))

  pub multiple-reduce_scalar : (n : ℕ) (p : Point) → multiple c (reduce_scalar n) p ≡ multiple c n p
  unfolding reduce_scalar
  multiple-reduce_scalar n p = multiple-mod n p

  pub multiple-scalar_add :
      (n m : ℕ) (p : Point) → multiple c (scalar_add n m) p ≡ add (multiple c n p) (multiple c m p)
  unfolding scalar_add
  multiple-scalar_add n m p =
      multiple-mod (n % curve_order + m % curve_order) p
      ∙ multiple-plus (n % curve_order) (m % curve_order) p
      ∙ ap₂ add (multiple-mod n p) (multiple-mod m p)

  pub multiple-scalar_mul :
      (n m : ℕ) (p : Point) → multiple c (scalar_mul n m) p ≡ multiple c n (multiple c m p)
  unfolding scalar_mul
  multiple-scalar_mul n m p =
      multiple-mod (n % curve_order * (m % curve_order)) p
      ∙ multiple-times (n % curve_order) (m % curve_order) p
      ∙ multiple-mod n (multiple c (m % curve_order) p)
      ∙ ap (multiple c n) (multiple-mod m p)

  -- What is taken away and added back.
  scalar_sub_back : (n m : ℕ) → scalar_add (scalar_sub n m) m ≡ n % curve_order
  unfolding scalar_sub scalar_add
  scalar_sub_back n m = omega arith

  pub multiple-scalar_sub :
      (n m : ℕ) (p : Point) → add (multiple c (scalar_sub n m) p) (multiple c m p) ≡ multiple c n p
  multiple-scalar_sub n m p =
      sym (multiple-scalar_add (scalar_sub n m) m p)
      ∙ ap (λ k. multiple c k p) (scalar_sub_back n m)
      ∙ multiple-mod n p

  -- The response of a sigma protocol to the challenge `e` for the secret `x`.
  pub multiple-response :
      (k e x : ℕ) (p : Point)
      → multiple c (scalar_add k (scalar_mul e x)) p
        ≡ add (multiple c k p) (multiple c e (multiple c x p))
  multiple-response k e x p =
      multiple-scalar_add k (scalar_mul e x) p
      ∙ ap (add (multiple c k p)) (multiple-scalar_mul e x p)
