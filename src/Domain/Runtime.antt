-- ===== src/Domain/Runtime.antt =====
-- crates/domain/src/runtime.rs: queries, cache policies, deployment modes and tracked operations.
use krusty_kms.Prelude.{ℕ, List, Bool, Option, ltb, not, ◌==◌}
use krusty_kms.Domain.Error.{GatewayError, DomainResult, returns, check, ◌>>◌}
use krusty_kms.Domain.Error
use krusty_kms.Domain.Account.{
  ChainId, FeltHex, OperationId, AccountDescriptor, DeploymentState, DerivationRequest, Provenance,
}

pub data QueryMode : Type 0 where
  active_view background_view : QueryMode

pub data BlockSelector : Type 0 where
  latest pending : BlockSelector
  number : ℕ → BlockSelector
  hash : FeltHex → BlockSelector

pub record TrackedToken : Type 0 where
  pub symbol : List ℕ
  pub address : FeltHex
  pub decimals : ℕ

pub record CachePolicy : Type 0 where
  pub ttl_ms : ℕ
  pub stale_while_revalidate_ms : ℕ

unfoldable pub with_ttl : ℕ → ℕ → DomainResult CachePolicy
with_ttl ttl_ms stale_while_revalidate_ms = do
  check (not (ttl_ms == 0)) Error.DomainError.invalid_cache_policy
  returns (record { ttl_ms = ttl_ms; stale_while_revalidate_ms = stale_while_revalidate_ms })

pub record WaitPolicy : Type 0 where
  pub poll_interval_ms : ℕ
  pub timeout_ms : ℕ

abbrev pub min_poll_interval_ms : ℕ
min_poll_interval_ms = 250

-- `WaitPolicy::new`
unfoldable pub wait_policy : ℕ → ℕ → DomainResult WaitPolicy
wait_policy poll_interval_ms timeout_ms = do
  check (not (ltb poll_interval_ms min_poll_interval_ms)) Error.DomainError.invalid_wait_policy
  check (not (timeout_ms == 0)) Error.DomainError.invalid_wait_policy
  returns (record { poll_interval_ms = poll_interval_ms; timeout_ms = timeout_ms })

pub data DeployMode : Type 0 where
  submit_only : DeployMode
  wait_for_acceptance : WaitPolicy → DeployMode

pub record DeployAccountRequest : Type 0 where
  pub derivation : DerivationRequest
  pub mode : DeployMode

pub record DeployAccountResult : Type 0 where
  pub account : AccountDescriptor
  pub deployment : DeploymentState
  pub already_deployed : Bool

pub data CacheStatus : Type 0 where
  miss hit stale : CacheStatus

pub record CacheMetadata : Type 0 where
  pub status : CacheStatus
  pub generated_at_ms : ℕ
  pub age_ms : ℕ

pub record AccountSnapshotRequest : Type 0 where
  pub chain_id : ChainId
  pub address : FeltHex
  pub tokens : List TrackedToken
  pub block : BlockSelector
  pub mode : QueryMode
  pub cache_policy : CachePolicy

pub record TokenBalanceSnapshot : Type 0 where
  pub token : TrackedToken
  pub amount_raw : List ℕ

pub record SnapshotBlockMetadata : Type 0 where
  pub selector : BlockSelector
  pub block_hash : Option FeltHex
  pub block_number : Option ℕ

pub record AccountSnapshot : Type 0 where
  pub address : FeltHex
  pub deployment : DeploymentState
  pub nonce : Option FeltHex
  pub balances : List TokenBalanceSnapshot
  pub block : SnapshotBlockMetadata
  pub cache : CacheMetadata

pub data OperationKind : Type 0 where
  derive_account check_deployment deploy_account sign query_account_snapshot : OperationKind

pub data OperationState : Type 0 where
  queued running completed expired : OperationState
  submitted accepted : FeltHex → OperationState
  rejected : GatewayError → OperationState

pub record OperationStatus : Type 0 where
  pub id : OperationId
  pub kind : OperationKind
  pub state : OperationState
  pub provenance : Option Provenance
