-- ===== src/Common/Error.antt =====
-- crates/common/src/error.rs: the error kinds. The prose that a constructor carries is dropped.
use mathlib.Core.Path.{◌≡◌, refl}
use krusty_kms.Prelude.{Bool, true, false, Option, none, some}

pub data KmsError : Type 0 where
  invalid_public_key invalid_private_key invalid_mnemonic crypto_error : KmsError
  serialization_error deserialization_error invalid_amount insufficient_balance : KmsError
  invalid_derivation_path hex_error json_error starknet_crypto_error point_at_infinity : KmsError
  invalid_proof rpc_error account_not_deployed already_deployed : KmsError
  insufficient_fee_balance invalid_class_hash contract_not_found transaction_error : KmsError
  transaction_reverted fee_estimation_failed timeout staking_error multisig_error : KmsError
  controller_error : KmsError

pub data Result {ℓ} (A : Type ℓ) : Type ℓ where
  err : KmsError → Result A
  ok : A → Result A

-- `Option::ok_or`
abbrev pub ok_or {ℓ} : {A : Type ℓ} → Option A → KmsError → Result A
ok_or none kind = err kind
ok_or (some value) kind = ok value

-- `if !test { return Err(…) }`
abbrev pub guard : Bool → KmsError → Result (Unit {0})
guard false kind = err kind
guard true kind = ok tt

-- `?`
infixl 5 ◌>>=◌
unfoldable pub ◌>>=◌ {ℓ₁ ℓ₂} : {A : Type ℓ₁} {B : Type ℓ₂} → Result A → (A → Result B) → Result B
err kind >>= next = err kind
ok value >>= next = next value

-- `?` after a call that returns no value.
infixl 5 ◌>>◌
abbrev pub ◌>>◌ {ℓ₁} : {B : Type ℓ₁} → Result (Unit {0}) → Result B → Result B
first >> next = first >>= λ _. next

pub ok-injective {ℓ} : {A : Type ℓ} (a b : A) → ok a ≡ ok b → a ≡ b
ok-injective a b h = cc h

pub err-ne-ok {ℓ} :
    {A : Type ℓ} {kind : KmsError} {a : A} → ◌≡◌ {A = Result A} (err kind) (ok a) → ⊥
err-ne-ok h = cc h

pub guard-eq-ok :
    (test : Bool) (kind : KmsError) {u : Unit {0}} → guard test kind ≡ ok u → test ≡ true
guard-eq-ok false kind h = cc
guard-eq-ok true kind h = refl

pub ok_or-eq-ok {ℓ} :
    {A : Type ℓ} (value : Option A) (kind : KmsError) {a : A}
    → ok_or value kind ≡ ok a
    → value ≡ some a
ok_or-eq-ok none kind h = cc
ok_or-eq-ok (some value) kind h = cc

-- A chain that succeeded: what its first step returned, and the rest from there.
pub >>=-eq-ok {ℓ₁ ℓ₂} :
    {A : Type ℓ₁} {B : Type ℓ₂} (first : Result A) (next : A → Result B) {result : B}
    → (first >>= next) ≡ ok result
    → (value : A) × (first ≡ ok value) × (next value ≡ ok result)
unfolding ◌>>=◌
>>=-eq-ok (err kind) next h = cc
>>=-eq-ok (ok value) next h = (value, refl, h)
