-- ===== src/Crypto/Audit/Producing.antt =====
-- When crates/crypto/src/audit.rs returns a proof.
use krusty_kms.Prelude.{
  ℕ, ◌≡◌, ◌≢◌, refl, sym, ap₂, ◌∙◌, [], ◌∷◌, ◌++◌, Option, none, some, Bool, true, false, inr,
  if◌then◌else◌,
}
use krusty_kms.Common.Error.{ok, ◌>>=◌}
use krusty_kms.Crypto.Scalar.{scalar_add, scalar_mul}
use krusty_kms.Crypto.Curve.{Curve, IsGroup, multiple, mul}
use krusty_kms.Crypto.Curve.Multiplication.{mul-multiple}
use krusty_kms.Crypto.Curve.Affine.{
  Visible, Visible-is_infinity, ne_identity-Visible, try_from_projective_total,
}
use krusty_kms.Crypto.Hash.{poseidon_challenge_total, coordinates_total}
use krusty_kms.Crypto.Poe2.Accepting.{multiple_pair, mul_pair-multiple_pair}
use krusty_kms.Crypto.Bit.Producing.{seen}
use krusty_kms.Crypto.Elgamal.{ElGamalCiphertext}
use krusty_kms.Crypto.Audit.{
  AuditProof, AuditPrefixData, AuditCoins, audit_cairo_string, hashed_prefix, computed_prefix,
  encrypts, audit_cipher, respond, prove_with_validation, verify_audit,
}
use krusty_kms.Crypto.Audit.Accepting.{
  AuditFelts, Encrypts, same_of_eq, audit_cipher-Encrypts, prove_with_validation-verify_audit,
}

module _ (c : Curve) (laws : IsGroup c) where
  open c use {Point, identity, add, sub, generator, poseidon}

  abbrev pub OwnerFinite : Option (AuditPrefixData Point) → Type 0
  OwnerFinite none = Unit
  OwnerFinite (some pd) = pd.user_pub_key ≢ identity

  -- The points that get coordinates are finite.
  pub record AuditFinite (balance : ℕ) (cipher0 : ElGamalCiphertext Point) (auditor : Point)
      (prefix_data : Option (AuditPrefixData Point)) (coins : AuditCoins) : Type 0 where
    pub owner : OwnerFinite prefix_data
    pub auditor_key : auditor ≢ identity
    pub left0 : cipher0.l ≢ identity
    pub right0 : cipher0.r ≢ identity
    pub left1 : multiple_pair c balance generator coins.r1 auditor ≢ identity
    pub right1 : multiple c coins.r1 generator ≢ identity
    pub ax : multiple c coins.kx generator ≢ identity
    pub al0 : multiple_pair c coins.kb generator coins.kx cipher0.r ≢ identity
    pub al1 : multiple_pair c coins.kb generator coins.kr auditor ≢ identity
    pub ar1 : multiple c coins.kr generator ≢ identity

  computed_prefix_total :
      (prefix_data : Option (AuditPrefixData Point)) (auditor : Point)
      (cipher0 cipher1 : ElGamalCiphertext Point)
      → OwnerFinite prefix_data
      → Visible c auditor
      → Visible c cipher0.l
      → Visible c cipher0.r
      → Visible c cipher1.l
      → Visible c cipher1.r
      → (prefix : ℕ) × (computed_prefix c prefix_data auditor cipher0 cipher1 ≡ ok prefix)
  unfolding hashed_prefix ◌>>=◌
  computed_prefix_total none auditor cipher0 cipher1 owner seen_a l0 r0 l1 r1 = (_, refl)
  computed_prefix_total (some pd) auditor cipher0 cipher1 owner seen_a l0 r0 l1 r1 =
      let seen_owner = ne_identity-Visible c laws pd.user_pub_key owner in
      let (points, statement) =
        coordinates_total c (pd.user_pub_key ∷ (auditor ∷ [])) (seen_owner, (seen_a, tt)) in
      let (parts, ciphers) =
        coordinates_total c (cipher0.l ∷ (cipher0.r ∷ (cipher1.l ∷ (cipher1.r ∷ []))))
          (l0, (r0, (l1, (r1, tt)))) in
      (
        poseidon (
            pd.chain_id
            ∷ (pd.tongo_address ∷ (pd.sender_address ∷ (audit_cairo_string ∷ (points ++ parts))))),
        rw (statement, ciphers) refl,
      )

  module _ (x balance : ℕ) (cipher0 : ElGamalCiphertext Point) (auditor user : Point)
      (prefix_data : Option (AuditPrefixData Point)) (coins : AuditCoins)
      (felts : AuditFelts x balance coins) (is_user : user ≡ multiple c x generator) where
    Encrypts-encrypts :
        Encrypts c laws balance x cipher0.r cipher0.l → encrypts c x balance cipher0 ≡ true
    Encrypts-encrypts is_cipher =
        let message = multiple c balance generator in
        let mask = multiple c x cipher0.r in
        same_of_eq c laws _ _ (
          ap₂ sub is_cipher (mul-multiple c laws x cipher0.r felts.private_key_IsFelt)
          ∙ laws.sub-add message mask
          ∙ sym (mul-multiple c laws balance generator felts.balance_IsFelt))

    cipher1 : ElGamalCiphertext Point
    cipher1 = audit_cipher c balance auditor coins.r1

    module _ (finite : AuditFinite balance cipher0 auditor prefix_data coins) where
      seen_auditor : Visible c auditor
      seen_auditor = ne_identity-Visible c laws auditor finite.auditor_key

      seen_l0 : Visible c cipher0.l
      seen_l0 = ne_identity-Visible c laws cipher0.l finite.left0

      seen_r0 : Visible c cipher0.r
      seen_r0 = ne_identity-Visible c laws cipher0.r finite.right0

      seen_l1 : Visible c cipher1.l
      unfolding cipher1
      seen_l1 =
          seen c laws cipher1.l _
            (audit_cipher-Encrypts c laws balance coins.r1 auditor felts.balance_IsFelt felts.r1)
            finite.left1

      seen_r1 : Visible c cipher1.r
      unfolding cipher1
      seen_r1 =
          seen c laws cipher1.r _ (mul-multiple c laws coins.r1 generator felts.r1) finite.right1

      respond_total :
          (proof : AuditProof) × (respond c x balance cipher0 cipher1 auditor prefix_data coins
            ≡ ok proof)
      unfolding respond ◌>>=◌
      respond_total =
          let ax = mul c coins.kx generator in
          let al0 = add (mul c coins.kb generator) (mul c coins.kx cipher0.r) in
          let ar1 = mul c coins.kr generator in
          let al1 = add (mul c coins.kb generator) (mul c coins.kr auditor) in
          let seen_ax =
            seen c laws ax _ (mul-multiple c laws coins.kx generator felts.kx) finite.ax in
          let seen_ar1 =
            seen c laws ar1 _ (mul-multiple c laws coins.kr generator felts.kr) finite.ar1 in
          let seen_al0 =
            seen c laws al0 _
              (mul_pair-multiple_pair c laws coins.kb generator coins.kx cipher0.r felts.kb
                felts.kx)
              finite.al0 in
          let seen_al1 =
            seen c laws al1 _
              (mul_pair-multiple_pair c laws coins.kb generator coins.kr auditor felts.kb felts.kr)
              finite.al1 in
          let (prefix, prefixed) =
            computed_prefix_total prefix_data auditor cipher0 cipher1 finite.owner seen_auditor
              seen_l0 seen_r0 seen_l1 seen_r1 in
          let (e, challenged) =
            poseidon_challenge_total c prefix (ax ∷ (al0 ∷ (al1 ∷ (ar1 ∷ []))))
              (seen_ax, (seen_al0, (seen_al1, (seen_ar1, tt)))) in
          let (sent_x, stored_x) = try_from_projective_total c ax seen_ax in
          let (sent_l0, stored_l0) = try_from_projective_total c al0 seen_al0 in
          let (sent_l1, stored_l1) = try_from_projective_total c al1 seen_al1 in
          let (sent_r1, stored_r1) = try_from_projective_total c ar1 seen_ar1 in
          (
            record {
              ax = sent_x;
              al0 = sent_l0;
              al1 = sent_l1;
              ar1 = sent_r1;
              sx = scalar_add coins.kx (scalar_mul e x);
              sb = scalar_add coins.kb (scalar_mul e balance);
              sr = scalar_add coins.kr (scalar_mul e coins.r1);
              c = e;
            },
            rw
                (
                  Visible-is_infinity c ax seen_ax,
                  Visible-is_infinity c al0 seen_al0,
                  Visible-is_infinity c ar1 seen_ar1,
                  Visible-is_infinity c al1 seen_al1,
                  prefixed,
                  challenged,
                  stored_x,
                  stored_l0,
                  stored_l1,
                  stored_r1,
                )
                refl,
          )

      checks_pass :
          (validate : Bool)
          → Encrypts c laws balance x cipher0.r cipher0.l
          → (if validate then encrypts c x balance cipher0 else true) ≡ true
      checks_pass true is_cipher = Encrypts-encrypts is_cipher
      checks_pass false is_cipher = refl

      -- For the owner's key, a ciphertext of the balance and finite points, `prove_with_validation`
      -- returns the ciphertext of the balance to the auditor under the drawn randomness, with a
      -- proof that `verify_audit` accepts for both ciphertexts, whether it checks the first one or
      -- not.
      pub prove_with_validation_total :
          (validate : Bool)
          → Encrypts c laws balance x cipher0.r cipher0.l
          → (proof : AuditProof) × (sent : ElGamalCiphertext Point) × (prove_with_validation c x
                balance cipher0 auditor validate prefix_data coins
              ≡ ok (proof, sent))
            × (verify_audit c proof user cipher0 sent auditor prefix_data ≡ ok true)
            × Encrypts c laws balance coins.r1 auditor sent.l
            × (sent.r ≡ multiple c coins.r1 generator)
      unfolding prove_with_validation cipher1 ◌>>=◌
      prove_with_validation_total validate is_cipher =
          let (proof, responded) = respond_total in
          let returned : prove_with_validation c x balance cipher0 auditor validate prefix_data
                coins
              ≡ ok (proof, cipher1) =
            rw
              (
                Visible-is_infinity c cipher0.l seen_l0,
                Visible-is_infinity c cipher0.r seen_r0,
                Visible-is_infinity c auditor seen_auditor,
                checks_pass validate is_cipher,
                Visible-is_infinity c cipher1.l seen_l1,
                Visible-is_infinity c cipher1.r seen_r1,
                responded,
              )
              refl in
          let (accepted, encrypted, is_multiple) =
            prove_with_validation-verify_audit c laws x balance cipher0 auditor user prefix_data
              coins felts is_user validate (inr is_cipher) returned in
          (proof, cipher1, returned, accepted, encrypted, is_multiple)
