-- ===== src/Domain/Account.antt =====
-- crates/domain/src/account.rs, and `ChainId` of crates/common/src/chain.rs.
use krusty_kms.Prelude.{ℕ, List, Bool, true, false, Option, ◌==◌}
use krusty_kms.Domain.Error.{GatewayError, DomainResult, check}
use krusty_kms.Domain.Error

pub data ChainId : Type 0 where
  mainnet sepolia : ChainId

abbrev pub same_chain : ChainId → ChainId → Bool
same_chain mainnet mainnet = true
same_chain sepolia sepolia = true
same_chain _ _ = false

abbrev pub FeltHex : Type 0
FeltHex = ℕ

abbrev pub HexBytes : Type 0
HexBytes = List ℕ

abbrev pub SecretRef : Type 0
SecretRef = List ℕ

abbrev pub OperationId : Type 0
OperationId = List ℕ

pub data KeyDomain : Type 0 where
  starknet_account tongo_account nostr_event : KeyDomain

unfoldable pub expected_coin_type : KeyDomain → ℕ
expected_coin_type starknet_account = 9004
expected_coin_type tongo_account = 5454
expected_coin_type nostr_event = 1237

pub record DerivationPath : Type 0 where
  pub coin_type : ℕ
  pub account_index : ℕ
  pub address_index : ℕ

unfoldable pub validate_for : DerivationPath → KeyDomain → DomainResult (Unit {0})
validate_for path domain =
    check (path.coin_type == expected_coin_type domain) Error.DomainError.invalid_derivation_path

pub data SaltPolicySpec : Type 0 where
  public_key zero_salt : SaltPolicySpec
  explicit : FeltHex → SaltPolicySpec

pub data AccountClassKind : Type 0 where
  open_zeppelin argent braavos : AccountClassKind

pub record AccountClassSpec : Type 0 where
  pub kind : AccountClassKind
  pub class_hash : Option FeltHex
  pub source_label : Option (List ℕ)
  pub allow_unlisted_class_hash : Bool

pub record DerivationRequest : Type 0 where
  pub secret : SecretRef
  pub key_domain : KeyDomain
  pub chain_id : ChainId
  pub path : DerivationPath
  pub account_class : AccountClassSpec
  pub salt_policy : SaltPolicySpec

unfoldable pub validate_derivation : DerivationRequest → DomainResult (Unit {0})
validate_derivation request = validate_for request.path request.key_domain

pub record Provenance : Type 0 where
  pub chain_id : ChainId
  pub key_domain : KeyDomain
  pub derivation_path : DerivationPath
  pub class_hash : Option FeltHex

pub record AccountDescriptor : Type 0 where
  pub address : FeltHex
  pub public_key : FeltHex
  pub class_hash : FeltHex
  pub salt : FeltHex
  pub constructor_calldata : List FeltHex
  pub deployer_address : FeltHex
  pub provenance : Provenance

pub data DeploymentState : Type 0 where
  undeployed deployed : DeploymentState
  deploying : FeltHex → DeploymentState
  rejected : GatewayError → DeploymentState

pub record CheckDeploymentResult : Type 0 where
  pub account : AccountDescriptor
  pub deployment : DeploymentState
