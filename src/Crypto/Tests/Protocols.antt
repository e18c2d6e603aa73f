-- ===== src/Crypto/Tests/Protocols.antt =====
-- The protocols of crates/crypto/src at small secrets.
mod Statements
use krusty_kms.Prelude.{
  ℕ, ap, ◌==◌, false, eq→==, ◌-◌, ◌≡◌, refl, ◌≢◌, [], ◌∷◌, some, none, true, ◌⊎◌, inl, arith,
}
use krusty_kms.Crypto.Bit.Producing.{IsFinite, prove_bit_total}
use krusty_kms.Crypto.Audit.Producing.{AuditFinite, prove_with_validation_total}
use krusty_kms.Crypto.Range.Producing.{AllFinite, prove_with_randomness_total}
use krusty_kms.Common.Error.{ok, ◌>>=◌}
use krusty_kms.Crypto.Scalar.{
  curve_order, felt_add, scalar_add, scalar_sub, scalar_mul, reduce_scalar,
}
use krusty_kms.Crypto.Curve.{
  multiple, mul, mul_bits, mul_bytes, projective_to_affine, try_from_projective, load, negate,
  is_infinity, same_affine,
}
use krusty_kms.Crypto.Curve.Multiplication.{mul-multiple}
use krusty_kms.Crypto.Hash.{compute_poseidon_challenge, compute_challenge, coordinates}
use krusty_kms.Crypto.Poe.{PoeProof, prove, verify, verify_internal}
use krusty_kms.Crypto.Poe.Accepting.{prove-verify, verify_internal-extract}
use krusty_kms.Crypto.Poe2.{Poe2Proof, prove_pair, verify_poe2}
use krusty_kms.Crypto.Poe2.Accepting.{multiple_pair, prove_pair-verify_poe2}
use krusty_kms.Crypto.Bit.{ProofOfBit, BitCoins, prove_bit, prove_bit_0, prove_bit_1, simulate_poe}
use krusty_kms.Crypto.Bit.Accepting.{AreFelts, IsProved}
use krusty_kms.Crypto.Range.{
  Range, prove_with_randomness, compute_total_randomness, verify_range, prove_bits, accumulate,
  bits,
}
use krusty_kms.Crypto.Range.Stepping.{AnyDegenerate}
use krusty_kms.Crypto.Elgamal.{
  ElGamalCiphertext, ElGamalEncryption, strong, encrypt_with_transcript, prove_encryption,
  challenge, verify_inner, decrypt_balance_with_limit,
}
use krusty_kms.Crypto.Elgamal.Accepting.{encrypt-verify_inner, IsDegenerate}
use krusty_kms.Crypto.Elgamal.Decrypting.{decrypt_balance-encrypt}
use krusty_kms.Crypto.Audit.{AuditProof, AuditCoins, prove_with_validation, respond, verify_audit}
use krusty_kms.Crypto.Audit.Accepting.{AuditFelts, Encrypts, prove_with_validation-verify_audit}
use krusty_kms.Crypto.Tests.Cyclic.{
  Residue, residue, cyclic, cyclic-IsGroup, ne_identity, add_residue, to_coordinates,
  from_coordinates, neg_y, hash_sum,
}

abbrev pub g : Residue
g = residue 1

pub g-ne_identity : g ≢ residue 0
unfolding multiple residue add_residue
g-ne_identity = ne_identity 1 (omega arith) (omega arith)

abbrev pub h : Residue
h = residue 7

mul-multiple_example : mul cyclic 1000 g ≡ multiple cyclic 1000 g
mul-multiple_example = mul-multiple cyclic cyclic-IsGroup 1000 g (omega arith)

abbrev pub coins : BitCoins
coins = record { s = 11; c = 12; k = 13 }

pub coins-AreFelts : AreFelts coins
coins-AreFelts = record { s = omega arith; c = omega arith; k = omega arith }

-- What a proof is made of.
program : Unit {0}
unfolding mul mul_bits mul_bytes projective_to_affine try_from_projective load negate is_infinity
    same_affine verify_internal prove_bit prove_bit_0 prove_bit_1 simulate_poe
    compute_poseidon_challenge compute_challenge coordinates reduce_scalar scalar_add scalar_sub
    scalar_mul felt_add prove_bits accumulate bits prove_with_randomness prove_encryption challenge
    encrypt_with_transcript respond prove_with_validation residue add_residue to_coordinates
    from_coordinates neg_y hash_sum ◌>>=◌
program = tt

encrypted :
    (e : ElGamalEncryption Residue) × (encrypt_with_transcript cyclic 3
        (multiple cyclic 9 g)
        5
        42
        strong
        11
        12
      ≡ ok e)
unfolding program multiple
encrypted = (_, refl)

prove-verify_example :
    (y : Residue) × (proof : PoeProof) × (prove cyclic 100 42 5 ≡ ok (y, proof))
    × (y ≡ multiple cyclic 100 g)
    × ((verify cyclic y proof 42 ≡ ok true) ⊎ (multiple cyclic proof.s g ≡ residue 0))
prove-verify_example =
    prove-verify cyclic cyclic-IsGroup 100 42 5 (omega arith) (omega arith)
      (ne_identity 5 (omega arith) (omega arith))

accepted_two : verify_internal cyclic (residue 100) g (residue 5) 2 205 ≡ ok true
unfolding program
accepted_two = refl

accepted_three : verify_internal cyclic (residue 100) g (residue 5) 3 305 ≡ ok true
unfolding program
accepted_three = refl

inverts : scalar_mul (curve_order - 1) (scalar_sub 2 3) ≡ 1
unfolding scalar_mul scalar_sub
inverts = refl

verify_internal-extract_example :
    residue 100 ≡ multiple cyclic (scalar_mul (curve_order - 1) (scalar_sub 205 305)) g
verify_internal-extract_example =
    verify_internal-extract cyclic cyclic-IsGroup (residue 100) g (residue 5) 2 205 3 305
      (curve_order - 1) (omega arith) (omega arith) (omega arith) (omega arith) accepted_two
      accepted_three inverts

pair-ne_identity : multiple_pair cyclic 11 g 12 h ≢ residue 0
unfolding program multiple
pair-ne_identity e =
    let value : 95 ≡ 0 = ap (λ (a : Residue). a.0) e in absurd (omega (arith, value))

prove_pair-verify_poe2_example :
    (y : Residue) × (proof : Poe2Proof) × (prove_pair cyclic 100 200 g h 42 11 12 ≡ ok (y, proof))
    × (y ≡ multiple_pair cyclic 100 g 200 h)
    × ((verify_poe2 cyclic y g h proof 42 ≡ ok true)
        ⊎ (multiple_pair cyclic proof.s1 g proof.s2 h ≡ residue 0))
prove_pair-verify_poe2_example =
    prove_pair-verify_poe2 cyclic cyclic-IsGroup 100 200 11 12 g h (omega arith) (omega arith)
      (omega arith) (omega arith) 42 pair-ne_identity

pk-ne_identity : multiple cyclic 9 g ≢ residue 0
pk-ne_identity = ne_identity 9 (omega arith) (omega arith)

cipher-ne_identity : multiple_pair cyclic 3 g 5 (multiple cyclic 9 g) ≢ residue 0
unfolding program multiple
cipher-ne_identity e =
    let value : 48 ≡ 0 = ap (λ (a : Residue). a.0) e in absurd (omega (arith, value))

commitment-ne_identity : multiple_pair cyclic 11 g 12 (multiple cyclic 9 g) ≢ residue 0
unfolding program multiple
commitment-ne_identity e =
    let value : 119 ≡ 0 = ap (λ (a : Residue). a.0) e in absurd (omega (arith, value))

encrypt-verify_inner_example :
    (e : ElGamalEncryption Residue) × (encrypt_with_transcript cyclic 3
        (multiple cyclic 9 g)
        5
        42
        strong
        11
        12
      ≡ ok e)
    × (e.l ≡ multiple_pair cyclic 3 g 5 (multiple cyclic 9 g))
    × (e.r ≡ multiple cyclic 5 g)
    × ((verify_inner cyclic e.l e.r (multiple cyclic 9 g) e.proof 42 strong ≡ ok true)
        ⊎ IsDegenerate cyclic cyclic-IsGroup (multiple cyclic 9 g) e.proof)
encrypt-verify_inner_example =
    encrypt-verify_inner cyclic cyclic-IsGroup 3 5 11 12 (multiple cyclic 9 g) (omega arith)
      (omega arith) (omega arith) (omega arith) strong 42 pk-ne_identity cipher-ne_identity
      (ne_identity 5 (omega arith) (omega arith)) commitment-ne_identity
      (ne_identity 12 (omega arith) (omega arith))

decrypt_balance-encrypt_example :
    decrypt_balance_with_limit cyclic (record { l = encrypted.0.l; r = encrypted.0.r }) 9 10 ≡ ok 3
decrypt_balance-encrypt_example =
    decrypt_balance-encrypt cyclic cyclic-IsGroup strong 3 9 5 42 11 12 10 (omega arith)
      (omega arith) (omega arith) (omega arith) (encrypted.1)
