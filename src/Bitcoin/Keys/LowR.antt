-- ===== src/Bitcoin/Keys/LowR.antt =====
-- What crates/kms/src/bitcoin/keys.rs signs with.
use krusty_kms.Prelude.{
  ℕ, zero, suc, ◌+◌, ◌<◌, ◌≡◌, refl, sym, ap, ◌∙◌, Bytes, [], ◌∷◌, ◌++◌, true, ◌==◌, ◌⊎◌, inl, inr,
  Bool-cases, ==→eq, to_le_bytes, arith,
}
use krusty_kms.Common.Error.{ok, >>=-eq-ok, ok-injective}
use krusty_kms.Bitcoin.External.{External}
use krusty_kms.Bitcoin.Keys.{
  P2wpkhSigner, is_low, additional_data, attempt, grind, sign_low_r, sign_sighash_all,
}

module _ (x : External) (signer : P2wpkhSigner x) (sighash : Bytes) where
  -- The additional data of an attempt: none for the first, then the counter in 32 bytes.
  abbrev pub Extra : ℕ → Bytes → Type 0
  Extra counter extra =
      ((counter ≡ 0) × (extra ≡ []))
      ⊎ ((0 < counter) × (extra ≡ to_le_bytes 4 counter ++ to_le_bytes 28 0))

  -- A signature of the digest in DER, with the sighash byte for all: of one of the 256 attempts, with S
  -- normalized and the first byte of R below 0x80.
  pub record IsSignature (signature : Bytes) : Type 0 where
    pub counter : ℕ
    pub extra : Bytes
    pub first : ℕ
    pub rest : Bytes
    pub in_time : counter < 256
    pub is_extra : Extra counter extra
    pub low :
        x.to_bytes (x.normalize_s (x.sign_rfc6979 signer.signing_key sighash extra)) ≡ first ∷ rest
    pub low_bound : first < 0x80
    pub encoded :
        signature
        ≡ x.to_der (x.normalize_s (x.sign_rfc6979 signer.signing_key sighash extra)) ++ (0x01 ∷ [])

  additional_data-Extra : (counter : ℕ) → Extra counter (additional_data counter)
  unfolding additional_data
  additional_data-Extra counter = elim (Bool-cases (counter == 0)) [
    | inl start ↦ inl (==→eq counter 0 start, rw start refl)
    | inr later ↦ inr (ground arith, rw later refl)
  ]

  is_low-eq :
      (bytes : Bytes)
      → is_low bytes ≡ true
      → (b : ℕ) × (rest : Bytes) × (bytes ≡ b ∷ rest) × (b < 0x80)
  is_low-eq [] h = cc
  is_low-eq (b ∷ rest) h = (b, rest, refl, ground arith)

  -- What the loop returns is an attempt of its own whose R is low.
  grind-eq-ok :
      (left counter : ℕ) {made : x.Signature}
      → grind x signer sighash left counter ≡ ok made
      → (k : ℕ) × (k < counter + left)
        × (attempt x signer sighash k ≡ made)
        × (is_low (x.to_bytes made) ≡ true)
  unfolding grind
  grind-eq-ok zero counter h = cc
  grind-eq-ok (suc left) counter {made} h =
      let signature = attempt x signer sighash counter in
      elim (Bool-cases (is_low (x.to_bytes signature))) [
        | inl low ↦
            let e : signature ≡ made = ok-injective _ _ (rw low at h) in
            (counter, omega arith, e, sym (ap (λ s. is_low (x.to_bytes s)) e) ∙ low)
        | inr high ↦
            let (k, bound, e, low) = grind-eq-ok left (counter + 1) (rw high at h) in
            (k, omega (arith, bound), e, low)
      ]

  pub sign_sighash_all-IsSignature :
      {signature : Bytes} → sign_sighash_all x signer sighash ≡ ok signature → IsSignature signature
  unfolding sign_sighash_all sign_low_r attempt
  sign_sighash_all-IsSignature {signature} h =
      let (made, found, done) = >>=-eq-ok (sign_low_r x signer sighash) _ h in
      let (k, bound, e, low) = grind-eq-ok 256 0 found in
      let (first, rest, bytes, small) = is_low-eq (x.to_bytes made) low in
      record {
        counter = k;
        extra = additional_data k;
        first = first;
        rest = rest;
        in_time = bound;
        is_extra = additional_data-Extra k;
        low = ap x.to_bytes e ∙ bytes;
        low_bound = small;
        encoded = sym (ok-injective _ _ done) ∙ ap (λ s. x.to_der s ++ (0x01 ∷ [])) (sym e);
      }
