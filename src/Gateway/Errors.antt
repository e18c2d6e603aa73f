-- ===== src/Gateway/Errors.antt =====
-- crates/gateway/src/errors.rs. Of a message only its lower-case bytes are read, by the two
-- classifications: an error of the kms crate comes with them.
use krusty_kms.Prelude.{ℕ, List, [], ◌∷◌, Bool, true, false, ◌&&◌, ◌||◌, ◌==◌, if◌then◌else◌}
use krusty_kms.Common.Error.{KmsError}
use krusty_kms.Domain.Error.{
  DomainError as Invalid, GatewayErrorCode as Code, GatewayError, gateway_error, Fallible,
}

-- An error of the kms crate, with its message in lower case.
abbrev pub Failure : Type 0
Failure = KmsError × List ℕ

abbrev pub KmsResult : Type 0 → Type 0
KmsResult A = Fallible Failure A

unfoldable pub has_prefix : List ℕ → List ℕ → Bool
has_prefix [] text = true
has_prefix (c ∷ word) [] = false
has_prefix (c ∷ word) (d ∷ text) = c == d && has_prefix word text

-- `str::contains`
unfoldable pub contains : List ℕ → List ℕ → Bool
contains [] word = has_prefix word []
contains (c ∷ text) word = has_prefix word (c ∷ text) || contains text word

abbrev pub nonce_word : List ℕ
nonce_word = 110 ∷ 111 ∷ 110 ∷ 99 ∷ 101 ∷ []

abbrev pub constructor_word : List ℕ
constructor_word = 99 ∷ 111 ∷ 110 ∷ 115 ∷ 116 ∷ 114 ∷ 117 ∷ 99 ∷ 116 ∷ 111 ∷ 114 ∷ []

abbrev pub calldata_word : List ℕ
calldata_word = 99 ∷ 97 ∷ 108 ∷ 108 ∷ 100 ∷ 97 ∷ 116 ∷ 97 ∷ []

abbrev pub class_hash_words : List ℕ
class_hash_words = 99 ∷ 108 ∷ 97 ∷ 115 ∷ 115 ∷ 32 ∷ 104 ∷ 97 ∷ 115 ∷ 104 ∷ []

abbrev pub constructor_code : List ℕ → Code → Code
constructor_code lower otherwise =
    if contains lower constructor_word || contains lower calldata_word
    then Code.constructor_calldata_mismatch
    else if contains lower class_hash_words
    then Code.invalid_class_hash
    else otherwise

-- `matches!(code, NonceMismatch | RpcDegraded)`
abbrev pub is_transient : Code → Bool
is_transient Code.nonce_mismatch = true
is_transient Code.rpc_degraded = true
is_transient _ = false

unfoldable pub classify_transaction_error : List ℕ → GatewayError
classify_transaction_error lower =
    let code =
      if contains lower nonce_word
      then Code.nonce_mismatch
      else constructor_code lower Code.rpc_degraded in
    gateway_error code (is_transient code)

unfoldable pub classify_reverted_transaction_error : List ℕ → GatewayError
classify_reverted_transaction_error lower =
    gateway_error (constructor_code lower Code.invalid_request) false

unfoldable pub map_kms_error : Failure → GatewayError
map_kms_error (KmsError.account_not_deployed, _) = gateway_error Code.undeployed false
map_kms_error (KmsError.contract_not_found, _) = gateway_error Code.not_found false
map_kms_error (KmsError.insufficient_balance, _) = gateway_error Code.insufficient_balance false
map_kms_error (KmsError.insufficient_fee_balance, _) = gateway_error Code.insufficient_fee false
map_kms_error (KmsError.invalid_class_hash, _) = gateway_error Code.invalid_class_hash false
map_kms_error (KmsError.invalid_derivation_path, _) =
    gateway_error Code.invalid_derivation_path false
map_kms_error (KmsError.timeout, _) = gateway_error Code.timeout true
map_kms_error (KmsError.invalid_mnemonic, _) = gateway_error Code.secret_unavailable false
map_kms_error (KmsError.invalid_private_key, _) = gateway_error Code.secret_unavailable false
map_kms_error (KmsError.rpc_error, _) = gateway_error Code.provider_transport true
map_kms_error (KmsError.fee_estimation_failed, _) = gateway_error Code.provider_transport true
map_kms_error (KmsError.transaction_error, lower) = classify_transaction_error lower
map_kms_error (KmsError.transaction_reverted, lower) = classify_reverted_transaction_error lower
map_kms_error (KmsError.already_deployed, _) = gateway_error Code.invalid_request false
map_kms_error (KmsError.invalid_public_key, _) = gateway_error Code.invalid_request false
map_kms_error (KmsError.crypto_error, _) = gateway_error Code.invalid_request false
map_kms_error (KmsError.serialization_error, _) = gateway_error Code.invalid_request false
map_kms_error (KmsError.deserialization_error, _) = gateway_error Code.invalid_request false
map_kms_error (KmsError.invalid_amount, _) = gateway_error Code.invalid_request false
map_kms_error (KmsError.starknet_crypto_error, _) = gateway_error Code.invalid_request false
map_kms_error (KmsError.invalid_proof, _) = gateway_error Code.invalid_request false
map_kms_error (KmsError.staking_error, _) = gateway_error Code.invalid_request false
map_kms_error (KmsError.multisig_error, _) = gateway_error Code.invalid_request false
map_kms_error (KmsError.controller_error, _) = gateway_error Code.invalid_request false
map_kms_error (KmsError.hex_error, _) = gateway_error Code.invalid_request false
map_kms_error (KmsError.json_error, _) = gateway_error Code.invalid_request false
map_kms_error (KmsError.point_at_infinity, _) = gateway_error Code.invalid_request false

unfoldable pub map_domain_error : Invalid → GatewayError
map_domain_error Invalid.invalid_derivation_path = gateway_error Code.invalid_derivation_path false
map_domain_error Invalid.invalid_cache_policy = gateway_error Code.invalid_cache_policy false
map_domain_error Invalid.invalid_wait_policy = gateway_error Code.invalid_wait_policy false
map_domain_error Invalid.invalid_felt_hex = gateway_error Code.invalid_request false
map_domain_error Invalid.invalid_hex_bytes = gateway_error Code.invalid_request false
map_domain_error Invalid.invalid_sign_request = gateway_error Code.invalid_request false
map_domain_error Invalid.invalid_secret_ref = gateway_error Code.invalid_request false
map_domain_error Invalid.empty_field = gateway_error Code.invalid_request false
