-- ===== src/Domain/Error.antt =====
-- crates/domain/src/error.rs: the error kinds, without their prose.
use krusty_kms.Prelude.{Bool, true, false, ◌≡◌, refl}

pub data DomainError : Type 0 where
  invalid_felt_hex invalid_hex_bytes empty_field invalid_derivation_path : DomainError
  invalid_cache_policy invalid_wait_policy invalid_sign_request invalid_secret_ref : DomainError

pub data GatewayErrorCode : Type 0 where
  undeployed not_found provider_transport insufficient_balance insufficient_fee : GatewayErrorCode
  nonce_mismatch invalid_request invalid_class_hash : GatewayErrorCode
  constructor_calldata_mismatch invalid_derivation_path invalid_cache_policy : GatewayErrorCode
  invalid_wait_policy unsupported_key_domain unsupported_account_class : GatewayErrorCode
  chain_mismatch unsupported_protocol_version unsupported_signing_domain : GatewayErrorCode
  cache_unavailable cache_stale rpc_degraded timeout secret_unavailable internal : GatewayErrorCode

pub record GatewayError : Type 0 where
  pub code : GatewayErrorCode
  pub retryable : Bool

abbrev pub gateway_error : GatewayErrorCode → Bool → GatewayError
gateway_error code retryable = record { code = code; retryable = retryable }

-- Rust's `Result<A, E>`.
pub data Fallible (E A : Type 0) : Type 0 where
  fails : E → Fallible E A
  returns : A → Fallible E A

abbrev pub DomainResult : Type 0 → Type 0
DomainResult A = Fallible DomainError A

abbrev pub GatewayResult : Type 0 → Type 0
GatewayResult A = Fallible GatewayError A

abbrev pub map_err : {E F A : Type 0} → (E → F) → Fallible E A → Fallible F A
map_err f (fails e) = fails (f e)
map_err f (returns a) = returns a

-- `if !test { return Err(error) }`
abbrev pub check : {E : Type 0} → Bool → E → Fallible E (Unit {0})
check false error = fails error
check true error = returns tt

-- `?`
infixl 5 ◌>>=◌ ◌>>◌
abbrev pub ◌>>=◌ : {E A B : Type 0} → Fallible E A → (A → Fallible E B) → Fallible E B
fails e >>= next = fails e
returns a >>= next = next a

abbrev pub ◌>>◌ : {E B : Type 0} → Fallible E (Unit {0}) → Fallible E B → Fallible E B
first >> next = first >>= λ _. next

pub check-eq-returns :
    {E : Type 0} (test : Bool) (error : E) {u : Unit {0}}
    → check test error ≡ returns u
    → test ≡ true
check-eq-returns false error h = cc
check-eq-returns true error h = refl

pub >>=-eq-returns :
    {E A B : Type 0} (first : Fallible E A) (next : A → Fallible E B) {b : B}
    → (first >>= next) ≡ returns b
    → (a : A) × (first ≡ returns a) × (next a ≡ returns b)
>>=-eq-returns (fails e) next h = cc
>>=-eq-returns (returns a) next h = (a, refl, h)
