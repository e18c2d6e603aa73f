-- ===== src/Domain/Signing.antt =====
-- crates/domain/src/signing.rs: what may be signed, and the checks before a key is looked up.
use krusty_kms.Prelude.{ℕ, List, Bool, Option, none, some, length, ◌==◌}
use krusty_kms.Domain.Error.{DomainResult, returns, check, ◌>>=◌, ◌>>◌}
use krusty_kms.Domain.Error
use krusty_kms.Domain.Account.{
  ChainId, FeltHex, HexBytes, SecretRef, KeyDomain, starknet_account, tongo_account, nostr_event,
  DerivationPath, validate_for,
}

pub data StarkSignDomain : Type 0 where
  transaction_hash typed_data_hash : StarkSignDomain

pub data StarkKeyDomain : Type 0 where
  starknet tongo : StarkKeyDomain

abbrev pub stark_key_domain : StarkKeyDomain → KeyDomain
stark_key_domain starknet = starknet_account
stark_key_domain tongo = tongo_account

pub data RawMessagePayload : Type 0 where
  hex : HexBytes → RawMessagePayload
  utf8 : List ℕ → RawMessagePayload

-- `HexBytes::to_array`
unfoldable pub to_array : ℕ → HexBytes → DomainResult (List ℕ)
to_array n bytes = do check (length bytes == n) Error.DomainError.invalid_hex_bytes; returns bytes

pub record StarkHash : Type 0 where
  pub secret : SecretRef
  pub key_domain : StarkKeyDomain
  pub derivation_path : DerivationPath
  pub chain_id : ChainId
  pub domain : StarkSignDomain
  pub hash : FeltHex
  pub allow_raw_stark_hash : Bool

pub record StarkRawMessage : Type 0 where
  pub secret : SecretRef
  pub key_domain : StarkKeyDomain
  pub derivation_path : DerivationPath
  pub message : FeltHex
  pub allow_raw_stark_hash : Bool

pub record NostrEvent : Type 0 where
  pub secret : SecretRef
  pub derivation_path : DerivationPath
  pub event_id : HexBytes

pub record NostrRawMessage : Type 0 where
  pub secret : SecretRef
  pub derivation_path : DerivationPath
  pub payload : RawMessagePayload

pub data SignRequest : Type 0 where
  stark_hash : StarkHash → SignRequest
  stark_raw_message : StarkRawMessage → SignRequest
  nostr_event_id : NostrEvent → SignRequest
  nostr_raw_message : NostrRawMessage → SignRequest

-- `SignRequest::validate`
unfoldable pub validate_sign : SignRequest → DomainResult (Unit {0})
validate_sign (stark_hash r) = do
  validate_for r.derivation_path (stark_key_domain r.key_domain)
  check r.allow_raw_stark_hash Error.DomainError.invalid_sign_request
validate_sign (stark_raw_message r) = do
  validate_for r.derivation_path (stark_key_domain r.key_domain)
  check r.allow_raw_stark_hash Error.DomainError.invalid_sign_request
validate_sign (nostr_event_id r) = do
  validate_for r.derivation_path nostr_event
  event_id ← to_array 32 r.event_id
  returns tt
validate_sign (nostr_raw_message r) = validate_for r.derivation_path nostr_event

abbrev pub key_domain : SignRequest → KeyDomain
key_domain (stark_hash r) = stark_key_domain r.key_domain
key_domain (stark_raw_message r) = stark_key_domain r.key_domain
key_domain (nostr_event_id r) = nostr_event
key_domain (nostr_raw_message r) = nostr_event

abbrev pub derivation_path : SignRequest → DerivationPath
derivation_path (stark_hash r) = r.derivation_path
derivation_path (stark_raw_message r) = r.derivation_path
derivation_path (nostr_event_id r) = r.derivation_path
derivation_path (nostr_raw_message r) = r.derivation_path

abbrev pub secret : SignRequest → SecretRef
secret (stark_hash r) = r.secret
secret (stark_raw_message r) = r.secret
secret (nostr_event_id r) = r.secret
secret (nostr_raw_message r) = r.secret

abbrev pub chain_id : SignRequest → Option ChainId
chain_id (stark_hash r) = some r.chain_id
chain_id (stark_raw_message r) = none
chain_id (nostr_event_id r) = none
chain_id (nostr_raw_message r) = none

pub data SignResult : Type 0 where
  stark_ecdsa : FeltHex → FeltHex → FeltHex → SignResult
  nostr_bip340 : HexBytes → HexBytes → SignResult
