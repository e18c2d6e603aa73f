-- ===== src/Crypto/Tests/Protocols/Statements.antt =====
-- The bit, range and audit proofs of crates/crypto/src at small secrets.
use krusty_kms.Prelude.{
  ℕ, ap, ◌==◌, false, eq→==, ◌≡◌, refl, ◌≢◌, [], ◌∷◌, some, none, true, ◌⊎◌, inl, arith,
}
use krusty_kms.Crypto.Bit.Producing.{IsFinite, prove_bit_total}
use krusty_kms.Crypto.Audit.Producing.{AuditFinite, prove_with_validation_total}
use krusty_kms.Crypto.Range.Producing.{AllFinite, prove_with_randomness_total}
use krusty_kms.Common.Error.{ok}
use krusty_kms.Crypto.Curve.{multiple}
use krusty_kms.Crypto.Poe2.Accepting.{multiple_pair}
use krusty_kms.Crypto.Bit.{ProofOfBit, prove_bit}
use krusty_kms.Crypto.Bit.Accepting.{IsProved}
use krusty_kms.Crypto.Range.{
  Range, prove_with_randomness, compute_total_randomness, verify_range, bits,
}
use krusty_kms.Crypto.Range.Stepping.{AnyDegenerate}
use krusty_kms.Crypto.Elgamal.{ElGamalCiphertext}
use krusty_kms.Crypto.Audit.{AuditProof, AuditCoins, prove_with_validation, verify_audit}
use krusty_kms.Crypto.Audit.Accepting.{AuditFelts, Encrypts, prove_with_validation-verify_audit}
use krusty_kms.Crypto.Tests.Cyclic.{Residue, residue, cyclic, cyclic-IsGroup}
use krusty_kms.Crypto.Tests.Protocols.{g, h, g-ne_identity, coins, coins-AreFelts, program}

audited :
    (proof : AuditProof) × (sent : ElGamalCiphertext Residue) × (prove_with_validation cyclic 9 3
        (record { l = residue 48; r = residue 5 })
        h
        true
        none
        (record { r1 = 5; kx = 6; kb = 7; kr = 8 })
      ≡ ok (proof, sent))
unfolding program
audited = (_, _, refl)

abbrev audit_coins : AuditCoins
audit_coins = record { r1 = 5; kx = 6; kb = 7; kr = 8 }

abbrev cipher0 : ElGamalCiphertext Residue
cipher0 = record { l = residue 48; r = residue 5 }

audit_felts : AuditFelts 9 3 audit_coins
audit_felts = record {
  private_key_IsFelt = omega arith;
  balance_IsFelt = omega arith;
  r1 = omega arith;
  kx = omega arith;
  kb = omega arith;
  kr = omega arith;
}

prove_with_validation-verify_audit_example :
    (verify_audit cyclic (audited.0) (multiple cyclic 9 g) cipher0 (audited.1) h none ≡ ok true)
    × Encrypts cyclic cyclic-IsGroup 3 5 h (audited.1.l)
    × (audited.1.r ≡ multiple cyclic 5 g)
prove_with_validation-verify_audit_example =
    prove_with_validation-verify_audit cyclic cyclic-IsGroup 9 3 cipher0 h (multiple cyclic 9 g)
      none audit_coins audit_felts refl true (inl refl) (audited.2)

ne : (a b : Residue) → (a.0 == b.0) ≡ false → a ≢ b
ne a b differ e = let same = eq→== a.0 b.0 (ap (λ (r : Residue). r.0) e) in absurd (cc)

abbrev FiniteBit : ℕ → ℕ → Type 0
FiniteBit random bit = IsFinite cyclic cyclic-IsGroup random g h coins bit

one_finite : FiniteBit 5 1
unfolding program multiple
one_finite = record {
  base = ne _ _ refl;
  commitment = ne _ _ refl;
  real = ne _ _ refl;
  masked = ne _ _ refl;
  simulated = ne _ _ refl;
}

zero_finite : FiniteBit 3 0
unfolding program multiple
zero_finite = record {
  base = ne _ _ refl;
  commitment = ne _ _ refl;
  real = ne _ _ refl;
  masked = ne _ _ refl;
  simulated = ne _ _ refl;
}

prove_bit_total_example :
    (v : Residue) × (proof : ProofOfBit) × (prove_bit cyclic 1 5 g h 42 coins ≡ ok (v, proof))
    × IsProved cyclic cyclic-IsGroup 5 g h 42 coins (omega arith) coins-AreFelts 1 v proof
prove_bit_total_example =
    prove_bit_total cyclic cyclic-IsGroup 5 g h 42 coins (omega arith) coins-AreFelts 1
      (omega arith) one_finite

bits_finite :
    AllFinite cyclic cyclic-IsGroup g h g-ne_identity 42
      (λ _. coins)
      (λ _. coins-AreFelts)
      0
      (bits 2 2)
      (3 ∷ (5 ∷ []))
unfolding bits
bits_finite = (zero_finite, (one_finite, tt))

prove_with_randomness_total_example :
    (range : Range) × (r : ℕ) × (prove_with_randomness cyclic g h 42 (λ _. coins) 2 2 (3 ∷ (5 ∷ []))
      ≡ ok (range, r))
    × (compute_total_randomness (3 ∷ (5 ∷ [])) ≡ ok r)
    × ((verify_range cyclic g h 42 range 2 ≡ some (ok (multiple_pair cyclic 2 g r h)))
        ⊎ AnyDegenerate cyclic cyclic-IsGroup g h g-ne_identity 42
            (λ _. coins)
            (λ _. coins-AreFelts)
            range.proofs)
prove_with_randomness_total_example =
    prove_with_randomness_total cyclic cyclic-IsGroup g h g-ne_identity 42 (λ _. coins)
      (λ _. coins-AreFelts) 2 2 (3 ∷ (5 ∷ [])) (omega arith) (omega arith) (omega arith) refl
      (omega arith) (omega arith, (omega arith, tt)) bits_finite

audit_finite : AuditFinite cyclic cyclic-IsGroup 3 cipher0 h none audit_coins
unfolding program multiple
audit_finite = record {
  owner = tt;
  auditor_key = ne _ _ refl;
  left0 = ne _ _ refl;
  right0 = ne _ _ refl;
  left1 = ne _ _ refl;
  right1 = ne _ _ refl;
  ax = ne _ _ refl;
  al0 = ne _ _ refl;
  al1 = ne _ _ refl;
  ar1 = ne _ _ refl;
}

cipher0-Encrypts : Encrypts cyclic cyclic-IsGroup 3 9 (residue 5) (residue 48)
unfolding program multiple
cipher0-Encrypts = refl

prove_with_validation_total_example :
    (proof : AuditProof) × (sent : ElGamalCiphertext Residue) × (prove_with_validation cyclic 9 3
        cipher0 h true none audit_coins
      ≡ ok (proof, sent))
    × (verify_audit cyclic proof (multiple cyclic 9 g) cipher0 sent h none ≡ ok true)
    × Encrypts cyclic cyclic-IsGroup 3 5 h sent.l
    × (sent.r ≡ multiple cyclic 5 g)
prove_with_validation_total_example =
    prove_with_validation_total cyclic cyclic-IsGroup 9 3 cipher0 h (multiple cyclic 9 g) none
      audit_coins audit_felts refl audit_finite true cipher0-Encrypts
