-- ===== src/Crypto/Audit.antt =====
-- crates/crypto/src/audit.rs. The four values that `random_felt` draws are `AuditCoins`.
pub mod Accepting
pub mod Producing
use krusty_kms.Prelude.{
  ℕ, List, [], ◌∷◌, ◌++◌, Option, none, some, Bool, true, false, not, ◌==◌, if◌then◌else◌,
}
use krusty_kms.Common.Error.{Result, ok, err, crypto_error, guard, ◌>>=◌, ◌>>◌}
use krusty_kms.Crypto.Scalar.{scalar_add, scalar_mul}
use krusty_kms.Crypto.Curve.{Curve, SerializablePoint, mul, try_from_projective, load, is_infinity}
use krusty_kms.Crypto.Hash.{compute_poseidon_challenge, coordinates}
use krusty_kms.Crypto.Elgamal.{ElGamalCiphertext}

pub record AuditProof : Type 0 where
  pub ax : SerializablePoint
  pub al0 : SerializablePoint
  pub al1 : SerializablePoint
  pub ar1 : SerializablePoint
  pub sx : ℕ
  pub sb : ℕ
  pub sr : ℕ
  pub c : ℕ

pub record AuditPrefixData (Point : Type 0) : Type 0 where
  pub chain_id : ℕ
  pub tongo_address : ℕ
  pub sender_address : ℕ
  pub user_pub_key : Point

pub record AuditCoins : Type 0 where
  pub r1 : ℕ
  pub kx : ℕ
  pub kb : ℕ
  pub kr : ℕ

abbrev pub audit_cairo_string : ℕ
audit_cairo_string = 418_581_342_580

-- A part of a ciphertext has no affine form.
abbrev or_crypto_error : {A : Type 0} → Result A → Result A
or_crypto_error (err _) = err crypto_error
or_crypto_error (ok a) = ok a

module _ (curve : Curve) where
  open curve use {Point, add, sub, same, generator, poseidon}

  -- The points of the statement and its ciphertexts, after the fields of the contract.
  unfoldable pub hashed_prefix :
      AuditPrefixData Point → Point → ElGamalCiphertext Point → ElGamalCiphertext Point → Result ℕ
  hashed_prefix pd auditor cipher0 cipher1 = do
    statement ← coordinates curve (pd.user_pub_key ∷ (auditor ∷ []))
    ciphers ←
        or_crypto_error
          (coordinates curve (cipher0.l ∷ (cipher0.r ∷ (cipher1.l ∷ (cipher1.r ∷ [])))))
    let felts = audit_cairo_string ∷ (statement ++ ciphers)
    ok (poseidon (pd.chain_id ∷ (pd.tongo_address ∷ (pd.sender_address ∷ felts))))

  abbrev pub computed_prefix :
      Option (AuditPrefixData Point)
      → Point
      → ElGamalCiphertext Point
      → ElGamalCiphertext Point
      → Result ℕ
  computed_prefix none auditor cipher0 cipher1 = ok audit_cairo_string
  computed_prefix (some pd) auditor cipher0 cipher1 = hashed_prefix pd auditor cipher0 cipher1

  abbrev pub check_finite : Point → Result (Unit {0})
  check_finite p = guard (not (is_infinity curve p)) crypto_error

  abbrev pub encrypts : ℕ → ℕ → ElGamalCiphertext Point → Bool
  encrypts private_key balance cipher0 =
      same (sub cipher0.l (mul curve private_key cipher0.r)) (mul curve balance generator)

  -- The ciphertext for the auditor, whose first part skips `g^0`.
  abbrev pub audit_cipher : ℕ → Point → ℕ → ElGamalCiphertext Point
  audit_cipher balance auditor r1 =
      let auditor_r1 = mul curve r1 auditor in
      record {
        l = if balance == 0 then auditor_r1 else add (mul curve balance generator) auditor_r1;
        r = mul curve r1 generator;
      }

  -- The commitments, the challenge and the responses.
  unfoldable pub respond :
      ℕ
      → ℕ
      → ElGamalCiphertext Point
      → ElGamalCiphertext Point
      → Point
      → Option (AuditPrefixData Point)
      → AuditCoins
      → Result AuditProof
  respond private_key balance cipher0 cipher1 auditor prefix_data coins =
      let ax = mul curve coins.kx generator in
      let g_kb = mul curve coins.kb generator in
      let al0 = add g_kb (mul curve coins.kx cipher0.r) in
      let ar1 = mul curve coins.kr generator in
      let al1 = add g_kb (mul curve coins.kr auditor) in
      do
        check_finite ax
        check_finite al0
        check_finite ar1
        check_finite al1
        prefix ← computed_prefix prefix_data auditor cipher0 cipher1
        c ← compute_poseidon_challenge curve prefix (ax ∷ (al0 ∷ (al1 ∷ (ar1 ∷ []))))
        let sx = scalar_add coins.kx (scalar_mul c private_key)
        let sb = scalar_add coins.kb (scalar_mul c balance)
        let sr = scalar_add coins.kr (scalar_mul c coins.r1)
        sent_x ← try_from_projective curve ax
        sent_l0 ← try_from_projective curve al0
        sent_l1 ← try_from_projective curve al1
        sent_r1 ← try_from_projective curve ar1
        ok (record {
          ax = sent_x;
          al0 = sent_l0;
          al1 = sent_l1;
          ar1 = sent_r1;
          sx = sx;
          sb = sb;
          sr = sr;
          c = c;
        })

  unfoldable pub prove_with_validation :
      ℕ
      → ℕ
      → ElGamalCiphertext Point
      → Point
      → Bool
      → Option (AuditPrefixData Point)
      → AuditCoins
      → Result (AuditProof × ElGamalCiphertext Point)
  prove_with_validation private_key balance cipher0 auditor validate prefix_data coins =
      let cipher1 = audit_cipher balance auditor coins.r1 in
      do
        check_finite cipher0.l
        check_finite cipher0.r
        check_finite auditor
        guard (if validate then encrypts private_key balance cipher0 else true) crypto_error
        check_finite cipher1.l
        check_finite cipher1.r
        proof ← respond private_key balance cipher0 cipher1 auditor prefix_data coins
        ok (proof, cipher1)

  -- `g^s1 * base^s2 == A + y^c`, as points.
  abbrev pub holds_pair : ℕ → ℕ → Point → Point → ℕ → Point → Bool
  holds_pair s1 s2 base a c y =
      same (add (mul curve s1 generator) (mul curve s2 base)) (add a (mul curve c y))

  abbrev pub holds_one : ℕ → Point → ℕ → Point → Bool
  holds_one s a c y = same (mul curve s generator) (add a (mul curve c y))

  -- The four equations, in order.
  unfoldable pub all_hold :
      AuditProof
      → Point
      → ElGamalCiphertext Point
      → ElGamalCiphertext Point
      → Point
      → Point
      → Point
      → Point
      → Point
      → Bool
  all_hold proof user cipher0 cipher1 auditor ax al0 al1 ar1 =
      if not (holds_one proof.sx ax proof.c user)
      then false
      else if not (holds_pair proof.sb proof.sx cipher0.r al0 proof.c cipher0.l)
      then false
      else if not (holds_one proof.sr ar1 proof.c cipher1.r)
      then false
      else holds_pair proof.sb proof.sr auditor al1 proof.c cipher1.l

  unfoldable pub verify_audit :
      AuditProof
      → Point
      → ElGamalCiphertext Point
      → ElGamalCiphertext Point
      → Point
      → Option (AuditPrefixData Point)
      → Result Bool
  verify_audit proof user cipher0 cipher1 auditor prefix_data = do
    ax ← load curve proof.ax
    al0 ← load curve proof.al0
    al1 ← load curve proof.al1
    ar1 ← load curve proof.ar1
    prefix ← computed_prefix prefix_data auditor cipher0 cipher1
    c_computed ← compute_poseidon_challenge curve prefix (ax ∷ (al0 ∷ (al1 ∷ (ar1 ∷ []))))
    if proof.c == c_computed
        then ok (all_hold proof user cipher0 cipher1 auditor ax al0 al1 ar1)
        else ok false
