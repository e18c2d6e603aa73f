-- ===== src/Gateway/System.antt =====
-- What the gateway is given: the traits `GatewayBackend` (crates/gateway/src/backend/interface.rs)
-- and `SecretResolver` (crates/gateway/src/types.rs), the clock, the system's entropy, and the
-- operations of the kms crate that it calls. `E` is the state of all that lies outside.
use krusty_kms.Prelude.{ℕ, List, Bool, Option}
use krusty_kms.Domain.Error.{GatewayResult}
use krusty_kms.Domain.Account.{
  ChainId, FeltHex, SecretRef, KeyDomain, DerivationPath, AccountDescriptor,
}
use krusty_kms.Domain.Runtime.{BlockSelector, TrackedToken, DeployMode, SnapshotBlockMetadata}
use krusty_kms.Gateway.Errors.{KmsResult}

pub data DeployExecution : Type 0 where
  already_deployed : DeployExecution
  submitted accepted : FeltHex → DeployExecution

pub record GatewayBackend (E : Type 0) : Type 0 where
  pub chain_id : ChainId
  pub check_deployed : FeltHex → BlockSelector → E → GatewayResult Bool × E
  pub deploy_open_zeppelin :
      ℕ → AccountDescriptor → DeployMode → E → GatewayResult DeployExecution × E
  pub nonce : FeltHex → BlockSelector → E → GatewayResult FeltHex × E
  pub token_balance : FeltHex → TrackedToken → BlockSelector → E → GatewayResult (List ℕ) × E
  pub block_metadata : BlockSelector → E → GatewayResult SnapshotBlockMetadata × E

pub record SecretResolver (E : Type 0) : Type 0 where
  pub resolve_private_key : SecretRef → KeyDomain → DerivationPath → E → GatewayResult ℕ × E
  pub resolve_nostr_private_key : SecretRef → DerivationPath → E → GatewayResult (List ℕ) × E

-- The signature of a Stark hash, and of a Nostr message.
pub record StarkSignature : Type 0 where
  pub public_key : FeltHex
  pub r : FeltHex
  pub s : FeltHex

pub record NostrSignature : Type 0 where
  pub public_key : List ℕ
  pub signature : List ℕ

-- The functions of the kms crate that the gateway calls. `oz_latest` and `oz_from_manifest` give the
-- class hash that the checked-in manifest has for a chain; `calculate_contract_address` takes the salt,
-- the class hash, the calldata and the deployer.
pub record Kms : Type 0 where
  pub oz_latest : ChainId → KmsResult FeltHex
  pub oz_from_manifest : ChainId → List ℕ → KmsResult FeltHex
  pub calculate_contract_address : FeltHex → FeltHex → List FeltHex → FeltHex → KmsResult FeltHex
  pub stark_public_key : ℕ → KmsResult FeltHex
  pub sign_stark_hash : ℕ → FeltHex → KmsResult StarkSignature
  pub sign_nostr_event_id : List ℕ → List ℕ → KmsResult NostrSignature
  pub sign_nostr_message : List ℕ → List ℕ → KmsResult NostrSignature

-- `now_ms` is the clock, `random_bytes` sixteen bytes of entropy, `hex_encode` the text of bytes, and
-- `is_blank` says that a text is white space.
pub record System (E : Type 0) : Type 0 where
  pub backend : GatewayBackend E
  pub secret_resolver : SecretResolver E
  pub kms : Kms
  pub now_ms : E → ℕ × E
  pub random_bytes : E → Option (List ℕ) × E
  pub hex_encode : List ℕ → List ℕ
  pub is_blank : List ℕ → Bool
