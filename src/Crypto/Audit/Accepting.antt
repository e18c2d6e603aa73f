-- ===== src/Crypto/Audit/Accepting.antt =====
-- Which proofs crates/crypto/src/audit.rs accepts.
use krusty_kms.Prelude.{
  ℕ, zero, suc, ◌≡◌, refl, sym, ap, ap₂, ◌∙◌, [], ◌∷◌, Option, Bool, true, false, ◌==◌, eq→==,
  subst, arith, ◌⊎◌, inl, inr, if◌then◌else◌,
}
use krusty_kms.Common.Error.{ok, crypto_error, guard, ◌>>=◌, >>=-eq-ok, ok-injective, guard-eq-ok}
use krusty_kms.Crypto.Scalar.{IsFelt, scalar_add, scalar_mul, scalar_add-IsFelt}
use krusty_kms.Crypto.Curve.{Curve, IsGroup, multiple, mul, try_from_projective, SerializablePoint}
use krusty_kms.Crypto.Curve.Group.{multiple-response, identity-add}
use krusty_kms.Crypto.Curve.Multiplication.{mul-multiple}
use krusty_kms.Crypto.Curve.Affine.{load-try_from_projective}
use krusty_kms.Crypto.Hash.{compute_poseidon_challenge, poseidon_challenge-IsFelt}
use krusty_kms.Crypto.Poe2.Accepting.{multiple_pair, response_pair}
use krusty_kms.Crypto.Elgamal.{ElGamalCiphertext}
use krusty_kms.Crypto.Audit.{
  AuditProof, AuditPrefixData, AuditCoins, computed_prefix, check_finite, encrypts, audit_cipher,
  respond, prove_with_validation, holds_pair, holds_one, all_hold, verify_audit,
}

pub record AuditFelts (private_key balance : ℕ) (coins : AuditCoins) : Type 0 where
  pub private_key_IsFelt : IsFelt private_key
  pub balance_IsFelt : IsFelt balance
  pub r1 : IsFelt coins.r1
  pub kx : IsFelt coins.kx
  pub kb : IsFelt coins.kb
  pub kr : IsFelt coins.kr

suc-eq-zero : (n : ℕ) → (suc n == 0) ≡ false
suc-eq-zero n = ground arith

module _ (c : Curve) (laws : IsGroup c) where
  open c use {Point, identity, add, sub, same, generator}

  pub same_of_eq : (p q : Point) → p ≡ q → same p q ≡ true
  same_of_eq p q e = subst (λ r. same p r ≡ true) e (laws.same_self p)

  holds_one-true :
      (k e x : ℕ) (y : Point)
      → IsFelt k
      → IsFelt e
      → y ≡ multiple c x generator
      → holds_one c (scalar_add k (scalar_mul e x)) (mul c k generator) e y ≡ true
  holds_one-true k e x y hk he is_multiple = same_of_eq _ _ (
      mul-multiple c laws _ generator (scalar_add-IsFelt k (scalar_mul e x))
      ∙ multiple-response c laws k e x generator
      ∙ ap₂ (λ p q. add p (multiple c e q)) (sym (mul-multiple c laws k generator hk))
          (sym is_multiple)
      ∙ ap (add (mul c k generator)) (sym (mul-multiple c laws e y he)))

  holds_pair-true :
      (k1 k2 e x1 x2 : ℕ) (base y : Point)
      → IsFelt k1
      → IsFelt k2
      → IsFelt e
      → y ≡ multiple_pair c x1 generator x2 base
      → holds_pair c
          (scalar_add k1 (scalar_mul e x1))
          (scalar_add k2 (scalar_mul e x2))
          base
          (add (mul c k1 generator) (mul c k2 base))
          e
          y
        ≡ true
  holds_pair-true k1 k2 e x1 x2 base y h1 h2 he is_multiple = same_of_eq _ _ (
      ap₂ add (mul-multiple c laws _ generator (scalar_add-IsFelt k1 (scalar_mul e x1)))
        (mul-multiple c laws _ base (scalar_add-IsFelt k2 (scalar_mul e x2)))
      ∙ response_pair c laws k1 k2 e x1 x2 generator base
      ∙ ap₂ (λ p q. add p (multiple c e q))
          (ap₂ add (sym (mul-multiple c laws k1 generator h1))
            (sym (mul-multiple c laws k2 base h2)))
          (sym is_multiple)
      ∙ ap (add (add (mul c k1 generator) (mul c k2 base))) (sym (mul-multiple c laws e y he)))

  -- The ciphertext is one of the balance, for the key or the randomness and the base.
  abbrev pub Encrypts : ℕ → ℕ → Point → Point → Type 0
  Encrypts balance x base l = l ≡ multiple_pair c balance generator x base

  -- The first part for the auditor encrypts zero too.
  pub audit_cipher-Encrypts :
      (balance r1 : ℕ) (auditor : Point)
      → IsFelt balance
      → IsFelt r1
      → Encrypts balance r1 auditor (audit_cipher c balance auditor r1).l
  unfolding multiple
  audit_cipher-Encrypts zero r1 auditor hb h1 =
      mul-multiple c laws r1 auditor h1 ∙ sym (identity-add c laws (multiple c r1 auditor))
  audit_cipher-Encrypts (suc n) r1 auditor hb h1 =
      rw (suc-eq-zero n)
        (ap₂ add (mul-multiple c laws (suc n) generator hb) (mul-multiple c laws r1 auditor h1))

  encrypts-Encrypts :
      (x balance : ℕ) (cipher0 : ElGamalCiphertext Point)
      → IsFelt x
      → IsFelt balance
      → encrypts c x balance cipher0 ≡ true
      → Encrypts balance x cipher0.r cipher0.l
  encrypts-Encrypts x balance cipher0 hx hb h =
      let masked = mul c x cipher0.r in
      sym (laws.add-sub cipher0.l masked)
      ∙ ap (λ p. add p masked) (laws.same-true (sub cipher0.l masked) (mul c balance generator) h)
      ∙ ap₂ add (mul-multiple c laws balance generator hb) (mul-multiple c laws x cipher0.r hx)

  module _ (x balance : ℕ) (cipher0 : ElGamalCiphertext Point) (auditor user : Point)
      (prefix_data : Option (AuditPrefixData Point)) (coins : AuditCoins)
      (felts : AuditFelts x balance coins) (is_user : user ≡ multiple c x generator) where
    cipher1 : ElGamalCiphertext Point
    cipher1 = audit_cipher c balance auditor coins.r1

    ax : Point
    ax = mul c coins.kx generator

    al0 : Point
    al0 = add (mul c coins.kb generator) (mul c coins.kx cipher0.r)

    ar1 : Point
    ar1 = mul c coins.kr generator

    al1 : Point
    al1 = add (mul c coins.kb generator) (mul c coins.kr auditor)

    -- The proof with the challenge `e` and the stored commitments.
    sent_proof :
        ℕ
        → SerializablePoint
        → SerializablePoint
        → SerializablePoint
        → SerializablePoint
        → AuditProof
    sent_proof e sent_x sent_l0 sent_l1 sent_r1 = record {
      ax = sent_x;
      al0 = sent_l0;
      al1 = sent_l1;
      ar1 = sent_r1;
      sx = scalar_add coins.kx (scalar_mul e x);
      sb = scalar_add coins.kb (scalar_mul e balance);
      sr = scalar_add coins.kr (scalar_mul e coins.r1);
      c = e;
    }

    equations-hold :
        (e : ℕ) (sent_x sent_l0 sent_l1 sent_r1 : SerializablePoint)
        → IsFelt e
        → Encrypts balance x cipher0.r cipher0.l
        → all_hold c
            (sent_proof e sent_x sent_l0 sent_l1 sent_r1)
            user
            cipher0
            cipher1
            auditor
            ax
            al0
            al1
            ar1
          ≡ true
    unfolding all_hold cipher1 ax al0 ar1 al1 sent_proof
    equations-hold e sent_x sent_l0 sent_l1 sent_r1 he is_cipher =
        rw
          (
            holds_one-true coins.kx e x user felts.kx he is_user,
            holds_pair-true coins.kb coins.kx e balance x cipher0.r cipher0.l felts.kb felts.kx he
                is_cipher,
            holds_one-true coins.kr e coins.r1 cipher1.r felts.kr he
                (mul-multiple c laws coins.r1 generator felts.r1),
          )
          (holds_pair-true coins.kb coins.kr e balance coins.r1 auditor cipher1.l felts.kb felts.kr
            he (audit_cipher-Encrypts balance coins.r1 auditor felts.balance_IsFelt felts.r1))

    accepts :
        (e prefix : ℕ) {sent_x sent_l0 sent_l1 sent_r1 : SerializablePoint}
        → Encrypts balance x cipher0.r cipher0.l
        → computed_prefix c prefix_data auditor cipher0 cipher1 ≡ ok prefix
        → compute_poseidon_challenge c prefix (ax ∷ (al0 ∷ (al1 ∷ (ar1 ∷ [])))) ≡ ok e
        → try_from_projective c ax ≡ ok sent_x
        → try_from_projective c al0 ≡ ok sent_l0
        → try_from_projective c al1 ≡ ok sent_l1
        → try_from_projective c ar1 ≡ ok sent_r1
        → verify_audit c
            (sent_proof e sent_x sent_l0 sent_l1 sent_r1)
            user
            cipher0
            cipher1
            auditor
            prefix_data
          ≡ ok true
    unfolding verify_audit sent_proof ◌>>=◌
    accepts e prefix {sent_x} {sent_l0} {sent_l1} {sent_r1} is_cipher prefixed challenged stored_x
          stored_l0 stored_l1 stored_r1 =
        rw
          (
            load-try_from_projective c laws ax stored_x,
            load-try_from_projective c laws al0 stored_l0,
            load-try_from_projective c laws al1 stored_l1,
            load-try_from_projective c laws ar1 stored_r1,
            prefixed,
            challenged,
            eq→== e e refl,
          )
          (ap ok (
            equations-hold e sent_x sent_l0 sent_l1 sent_r1
              (poseidon_challenge-IsFelt c prefix _ challenged) is_cipher))

    respond-verify_audit :
        {proof : AuditProof}
        → Encrypts balance x cipher0.r cipher0.l
        → respond c x balance cipher0 cipher1 auditor prefix_data coins ≡ ok proof
        → verify_audit c proof user cipher0 cipher1 auditor prefix_data ≡ ok true
    unfolding respond ax al0 ar1 al1 sent_proof
    respond-verify_audit {proof} is_cipher h =
        let (_, _, h1) = >>=-eq-ok (check_finite c ax) _ h in
        let (_, _, h2) = >>=-eq-ok (check_finite c al0) _ h1 in
        let (_, _, h3) = >>=-eq-ok (check_finite c ar1) _ h2 in
        let (_, _, h4) = >>=-eq-ok (check_finite c al1) _ h3 in
        let (prefix, prefixed, h5) =
          >>=-eq-ok (computed_prefix c prefix_data auditor cipher0 cipher1) _ h4 in
        let (e, challenged, h6) =
          >>=-eq-ok (compute_poseidon_challenge c prefix (ax ∷ (al0 ∷ (al1 ∷ (ar1 ∷ []))))) _ h5 in
        let (_, stored_x, h7) = >>=-eq-ok (try_from_projective c ax) _ h6 in
        let (_, stored_l0, h8) = >>=-eq-ok (try_from_projective c al0) _ h7 in
        let (_, stored_l1, h9) = >>=-eq-ok (try_from_projective c al1) _ h8 in
        let (_, stored_r1, done) = >>=-eq-ok (try_from_projective c ar1) _ h9 in
        subst (λ sent. verify_audit c sent user cipher0 cipher1 auditor prefix_data ≡ ok true)
          (ok-injective _ _ done)
          (accepts e prefix is_cipher prefixed challenged stored_x stored_l0 stored_l1 stored_r1)

    checked :
        (validate : Bool)
        → (validate ≡ true) ⊎ Encrypts balance x cipher0.r cipher0.l
        → (if validate then encrypts c x balance cipher0 else true) ≡ true
        → Encrypts balance x cipher0.r cipher0.l
    checked validate (inl on) h =
        encrypts-Encrypts x balance cipher0 felts.private_key_IsFelt felts.balance_IsFelt
          (subst (λ b. (if b then encrypts c x balance cipher0 else true) ≡ true) on h)
    checked validate (inr known) h = known

    -- When `prove_with_validation` returns a proof for the owner's public key, and either it was
    -- asked to check the ciphertext or the ciphertext encrypts the balance to that key, then
    -- `verify_audit` accepts the proof with the ciphertext that is returned, which encrypts the
    -- same balance to the auditor under the drawn randomness.
    pub prove_with_validation-verify_audit :
        (validate : Bool) {proof : AuditProof} {sent : ElGamalCiphertext Point}
        → (validate ≡ true) ⊎ Encrypts balance x cipher0.r cipher0.l
        → prove_with_validation c x balance cipher0 auditor validate prefix_data coins
          ≡ ok (proof, sent)
        → (verify_audit c proof user cipher0 sent auditor prefix_data ≡ ok true)
          × Encrypts balance coins.r1 auditor sent.l
          × (sent.r ≡ multiple c coins.r1 generator)
    unfolding prove_with_validation cipher1
    prove_with_validation-verify_audit validate {proof} {sent} known h =
        let (_, _, h1) = >>=-eq-ok (check_finite c cipher0.l) _ h in
        let (_, _, h2) = >>=-eq-ok (check_finite c cipher0.r) _ h1 in
        let (_, _, h3) = >>=-eq-ok (check_finite c auditor) _ h2 in
        let test = if validate then encrypts c x balance cipher0 else true in
        let (_, tested, h4) = >>=-eq-ok (guard test crypto_error) _ h3 in
        let (_, _, h5) = >>=-eq-ok (check_finite c cipher1.l) _ h4 in
        let (_, _, h6) = >>=-eq-ok (check_finite c cipher1.r) _ h5 in
        let (made, responded, done) =
          >>=-eq-ok (respond c x balance cipher0 cipher1 auditor prefix_data coins) _ h6 in
        let is_cipher = checked validate known (guard-eq-ok test crypto_error tested) in
        subst
          (λ out.
            (verify_audit c out.0 user cipher0 out.1 auditor prefix_data ≡ ok true)
            × Encrypts balance coins.r1 auditor out.1.l
            × (out.1.r ≡ multiple c coins.r1 generator))
          (ok-injective (made, cipher1) (proof, sent) done)
          (
            respond-verify_audit is_cipher responded,
            audit_cipher-Encrypts balance coins.r1 auditor felts.balance_IsFelt felts.r1,
            mul-multiple c laws coins.r1 generator felts.r1,
          )
