-- ===== src/Crypto/Elgamal/Decrypting.antt =====
-- What crates/crypto/src/elgamal.rs decrypts.
use native.Mathlib.Decide.{dec_lt}
use krusty_kms.Prelude.{
  ℕ, zero, suc, ◌+◌, ◌*◌, ◌<◌, ◌≤◌, ◌≡◌, sym, ap, ap₂, ◌∙◌, true, false, subst, arith, inl, inr,
  Bool-cases,
}
use krusty_kms.Common.Error.{ok, invalid_public_key, ◌>>=◌, >>=-eq-ok, ok-injective}
use krusty_kms.Crypto.Scalar.{IsFelt, curve_order}
use krusty_kms.Crypto.Curve.{Curve, IsGroup, multiple, mul, projective_to_affine, same_coordinates}
use krusty_kms.Crypto.Curve.Group.{multiple-times, multiple_one, multiple-plus}
use krusty_kms.Crypto.Curve.Multiplication.{mul-multiple}
use krusty_kms.Crypto.Curve.Affine.{
  Visible, Visible-or-identity, ne_identity-Visible, affine_of, negate_total, negate-inverse,
  is_infinity-identity, Visible-is_infinity, same_coordinates-true, same_coordinates_self,
}
use krusty_kms.Crypto.Elgamal.{
  ElGamalCiphertext, ElGamalEncryption, Transcript, encrypt_with_transcript, decrypt, search_log,
  recover_small_discrete_log, decrypt_balance_with_limit, prove_encryption,
}

module _ (c : Curve) (laws : IsGroup c) where
  open c use {Point, identity, add, generator}

  multiple_comm :
      (n m : ℕ) (p : Point) → multiple c n (multiple c m p) ≡ multiple c m (multiple c n p)
  multiple_comm n m p =
      sym (multiple-times c laws n m p)
      ∙ ap (λ k. multiple c k p) (let e : n * m ≡ m * n = grind arith in e)
      ∙ multiple-times c laws m n p

  -- A point whose secret part is taken away again.
  decrypt-masked :
      (message mask : Point) (ciphertext : ElGamalCiphertext Point) (key : ℕ)
      → ciphertext.l ≡ add message mask
      → mul c key ciphertext.r ≡ mask
      → decrypt c ciphertext key ≡ ok message
  unfolding decrypt ◌>>=◌
  decrypt-masked message mask ciphertext key left masked = elim (Visible-or-identity c laws mask) [
    | inl seen ↦
        let (q, negated) = negate_total c laws invalid_public_key mask seen in
        let inverse = negate-inverse c laws invalid_public_key mask negated in
        rw (masked, Visible-is_infinity c mask seen, negated, left)
          (ap ok
            (laws.add_assoc message mask q ∙ ap (add message) inverse ∙ laws.add-identity message))
    | inr hidden ↦
        rw (masked, hidden, is_infinity-identity c laws, left, hidden)
          (ap ok (laws.add-identity message))
  ]

  next_multiple :
      (value : ℕ) → add (multiple c value generator) generator ≡ multiple c (value + 1) generator
  next_multiple value =
      ap (add (multiple c value generator)) (sym (multiple_one c laws generator))
      ∙ sym (multiple-plus c laws value 1 generator)

  positive-Visible :
      (value : ℕ) → 0 < value → value < curve_order → Visible c (multiple c value generator)
  unfolding multiple
  positive-Visible value positive small = ne_identity-Visible c laws _ (λ e.
      let same = laws.generator-injective value 0 small (omega arith) e in absurd (omega arith))

  module _ (m : ℕ) (small : m < curve_order) {target : ℕ × ℕ}
      (known : projective_to_affine c (multiple c m generator) ≡ ok target) where
    further :
        (value : ℕ) (xy : ℕ × ℕ)
        → value ≤ m
        → projective_to_affine c (multiple c value generator) ≡ ok xy
        → same_coordinates c xy target ≡ false
        → value + 1 ≤ m
    further value xy le found other = elim (dec_lt value m) [
      | yes lt ↦ omega arith
      | no ge ↦
          let at_m : value ≡ m = omega arith in
          let same =
            ok-injective xy target (
              sym found ∙ ap (λ k. projective_to_affine c (multiple c k generator)) at_m ∙ known) in
          let agree =
            subst (λ t. same_coordinates c xy t ≡ true) same (same_coordinates_self c xy) in
          absurd (cc)
    ]

    search_log-found :
        (rounds value : ℕ)
        → 0 < value
        → value ≤ m
        → m < value + rounds
        → search_log c rounds value (multiple c value generator) target ≡ ok m
    unfolding search_log ◌>>=◌
    search_log-found zero value h1 h2 h3 = absurd (omega arith)
    search_log-found (suc rounds) value h1 h2 h3 =
        let current = multiple c value generator in
        let (xy, found) = affine_of c current (positive-Visible value h1 (omega (arith, small))) in
        elim (Bool-cases (same_coordinates c xy target)) [
          | inl same ↦
              let equal =
                same_coordinates-true c laws current (multiple c m generator) found known same in
              rw (found, same)
                (ap ok (laws.generator-injective value m (omega (arith, small)) small equal))
          | inr other ↦
              rw (found, other, next_multiple value)
                (search_log-found rounds (value + 1) (omega arith) (further value xy h2 found other)
                  (omega arith))
        ]

  recover_zero : (max : ℕ) → recover_small_discrete_log c (multiple c 0 generator) max ≡ ok 0
  unfolding recover_small_discrete_log multiple
  recover_zero max = rw (is_infinity-identity c laws)

  recover-multiple :
      (m max : ℕ)
      → m < curve_order
      → m ≤ max
      → recover_small_discrete_log c (multiple c m generator) max ≡ ok m
  unfolding recover_small_discrete_log ◌>>=◌
  recover-multiple m max small le = elim (dec_lt 0 m) [
    | yes positive ↦
        let seen = positive-Visible m positive small in
        let (target, known) = affine_of c (multiple c m generator) seen in
        rw (Visible-is_infinity c _ seen, known)
          (subst (λ p. search_log c max 1 p target ≡ ok m) (multiple_one c laws generator)
            (search_log-found m small known max 1 (omega arith) (omega arith) (omega arith)))
    | no zero_m ↦
        let e : 0 ≡ m = omega arith in
        subst (λ k. recover_small_discrete_log c (multiple c k generator) max ≡ ok k) e
          (recover_zero max)
  ]

  -- With the key of the public key that it was encrypted for, a ciphertext under either transcript
  -- decrypts to its message, if the message is within the search limit and below the order.
  pub decrypt_balance-encrypt :
      (transcript : Transcript) (m key random prefix r_b r_r max : ℕ)
      {encrypted : ElGamalEncryption Point}
      → m < curve_order
      → IsFelt key
      → IsFelt random
      → m ≤ max
      → encrypt_with_transcript c m (multiple c key generator) random prefix transcript r_b r_r
        ≡ ok encrypted
      → decrypt_balance_with_limit c (record { l = encrypted.l; r = encrypted.r }) key max ≡ ok m
  unfolding encrypt_with_transcript decrypt_balance_with_limit ◌>>=◌
  decrypt_balance-encrypt transcript m key random prefix r_b r_r max {encrypted} small hk hr le h =
      let public_key = multiple c key generator in
      let l = add (mul c m generator) (mul c random public_key) in
      let r = mul c random generator in
      let (proof, _, done) =
        >>=-eq-ok (prove_encryption c m random public_key l r prefix transcript r_b r_r) _ h in
      let left : l ≡ add (multiple c m generator) (multiple c random public_key) =
        ap₂ add (mul-multiple c laws m generator (omega (arith, small)))
          (mul-multiple c laws random public_key hr) in
      let masked : mul c key r ≡ multiple c random public_key =
        mul-multiple c laws key r hk
        ∙ ap (multiple c key) (mul-multiple c laws random generator hr)
        ∙ multiple_comm key random generator in
      let decrypted =
        decrypt-masked (multiple c m generator) (multiple c random public_key)
          (record { l = l; r = r }) key left masked in
      subst
        (λ (e : ElGamalEncryption Point).
          decrypt_balance_with_limit c (record { l = e.l; r = e.r }) key max ≡ ok m)
        (ok-injective _ encrypted done) (rw decrypted (recover-multiple m max small le))
