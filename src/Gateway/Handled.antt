-- ===== src/Gateway/Handled.antt =====
-- What every call of the handlers in crates/gateway/src/signing.rs and accounts.rs comes to.
pub mod Queries
use krusty_kms.Prelude.{ℕ, ◌+◌, ◌≡◌, refl, List, [], ◌∷◌, Option, none, some, Bool, true, false}
use krusty_kms.Prelude.Assoc.{lookup}
use krusty_kms.Domain.Error.{GatewayError, GatewayResult, fails, returns, map_err}
use krusty_kms.Domain.Account.{
  OperationId, Provenance, AccountDescriptor, DerivationRequest, SecretRef, KeyDomain,
  DerivationPath, FeltHex,
}
use krusty_kms.Domain.Runtime.{
  AccountSnapshot, AccountSnapshotRequest, DeployAccountRequest, OperationStatus, OperationKind,
  TrackedToken, completed, submitted, accepted,
}
use krusty_kms.Domain.Signing.{
  SignRequest, stark_hash, stark_raw_message, nostr_event_id, nostr_raw_message,
}
use krusty_kms.Gateway.Snapshot.{
  SnapshotCacheEntry, cached_snapshot_response, stale_snapshot_fallback,
}
use krusty_kms.Gateway.Cache.{SnapshotCacheKey, from_request}
use krusty_kms.Gateway.Cache.Storing.{store_snapshot-Stored}
use krusty_kms.Gateway.System
use krusty_kms.Gateway.System.{System, DeployExecution}
use krusty_kms.Gateway.Runtime.{Gateway, GatewayResponse, M, pure, call, try_call}
use krusty_kms.Gateway.Runtime.Settling.{
  Ready, Settles, Preserves, call-Preserves, pure-Preserves, >>=-Preserves, attempt-Preserves,
  >>=-Settles, attempt-Settles,
}
use krusty_kms.Gateway.Runtime.Handlers.{
  Handles, refuse-Settles, finish-Settles, require-Settles, tracked-Handles,
}
use krusty_kms.Gateway.Query.{
  fetch_nonce, fetch_balances, fetch_snapshot, read_cache, put_cache, write_cache, serve_stale,
  refresh_snapshot, serve_cached, query_snapshot,
}
use krusty_kms.Gateway.Accounts.{derive_account_descriptor, derive, check_account, conclude, deploy}
use krusty_kms.Gateway.Signing.{sign_stark, sign_payload, sign_request}

module _ {E : Type 0} (dec : Discrete OperationId) (dec_key : Discrete SnapshotCacheKey)
    (sys : System E) (left : ℕ) where
  -- `?` after a call that tracks nothing.
  pub try_call-Preserves :
      {A B : Type 0} (m : M E (GatewayResult A)) (next : A → M E (GatewayResult B))
      → Preserves dec dec_key (left + 1) m
      → ((a : A) → Preserves dec dec_key (left + 1) (next a))
      → Preserves dec dec_key (left + 1) (try_call m next)
  try_call-Preserves m next pm pn =
      attempt-Preserves dec dec_key (left + 1) m (λ error. pure (fails error)) next pm
        (λ error. pure-Preserves dec dec_key (left + 1) (fails error)) pn

  pub outside : {A : Type 0} (f : E → A × E) → Preserves dec dec_key (left + 1) (call f)
  outside f = call-Preserves dec dec_key (left + 1) f

  pub known : {A : Type 0} (a : A) → Preserves dec dec_key (left + 1) (pure {E = E} a)
  known a = pure-Preserves dec dec_key (left + 1) a

  derive_account_descriptor-Preserves :
      (request : DerivationRequest)
      → Preserves dec dec_key (left + 1) (derive_account_descriptor sys request)
  unfolding derive_account_descriptor
  derive_account_descriptor-Preserves request = try_call-Preserves _ _ (known _) (λ _.
      try_call-Preserves _ _ (known _) (λ _. try_call-Preserves _ _ (known _) (λ _.
        try_call-Preserves _ _ (outside _) (λ _. try_call-Preserves _ _ (known _) (λ _.
          try_call-Preserves _ _ (known _)
            (λ _. try_call-Preserves _ _ (known _) (λ _. known _)))))))

  sign_stark-Settles :
      (status : OperationStatus) (provenance : Option Provenance) (secret : SecretRef)
      (key_domain : KeyDomain) (path : DerivationPath) (hash : FeltHex)
      → Settles dec dec_key sys left status
          (sign_stark dec sys status provenance secret key_domain path hash)
  unfolding sign_stark
  sign_stark-Settles status provenance secret key_domain path hash =
      require-Settles dec dec_key left sys status _ _ _ (outside _) (λ private_key.
        require-Settles dec dec_key left sys status _ _ _ (known _)
          (λ signed. finish-Settles dec dec_key left sys status _ _ _ refl))

  sign_payload-Settles :
      (status : OperationStatus) (request : SignRequest)
      → Settles dec dec_key sys left status (sign_payload dec sys status request)
  unfolding sign_payload
  sign_payload-Settles status (stark_hash r) = sign_stark-Settles status _ _ _ _ _
  sign_payload-Settles status (stark_raw_message r) = sign_stark-Settles status _ _ _ _ _
  sign_payload-Settles status (nostr_event_id r) =
      require-Settles dec dec_key left sys status _ _ _ (outside _) (λ private_key.
        require-Settles dec dec_key left sys status _ _ _ (known _) (λ event_id.
          require-Settles dec dec_key left sys status _ _ _ (known _)
            (λ signed. finish-Settles dec dec_key left sys status _ _ _ refl)))
  sign_payload-Settles status (nostr_raw_message r) =
      require-Settles dec dec_key left sys status _ _ _ (outside _) (λ private_key.
        require-Settles dec dec_key left sys status _ _ _ (known _)
          (λ signed. finish-Settles dec dec_key left sys status _ _ _ refl))

  pub sign_request-Handles :
      (request : SignRequest)
      → Handles dec dec_key sys left OperationKind.sign (sign_request dec sys request)
  unfolding sign_request
  sign_request-Handles request = tracked-Handles dec dec_key left sys _ _ (λ status.
      require-Settles dec dec_key left sys status _ _ _ (known _) (λ _.
        require-Settles dec dec_key left sys status _ _ _ (known _)
          (λ _. sign_payload-Settles status request)))

  conclude-Settles :
      (status : OperationStatus) (account : AccountDescriptor) (execution : DeployExecution)
      → Settles dec dec_key sys left status (conclude sys dec status account execution)
  unfolding conclude
  conclude-Settles status account System.already_deployed =
      finish-Settles dec dec_key left sys status _ _ _ refl
  conclude-Settles status account (System.submitted tx_hash) =
      finish-Settles dec dec_key left sys status _ _ _ refl
  conclude-Settles status account (System.accepted tx_hash) =
      finish-Settles dec dec_key left sys status _ _ _ refl

  pub derive-Handles :
      (request : DerivationRequest)
      → Handles dec dec_key sys left OperationKind.derive_account (derive sys dec request)
  unfolding derive
  derive-Handles request = tracked-Handles dec dec_key left sys _ _ (λ status.
      require-Settles dec dec_key left sys status _ _ _
        (derive_account_descriptor-Preserves request)
        (λ (_, account). finish-Settles dec dec_key left sys status _ _ account refl))

  pub check_account-Handles :
      (request : DerivationRequest)
      → Handles dec dec_key sys left OperationKind.check_deployment (check_account sys dec request)
  unfolding check_account
  check_account-Handles request = tracked-Handles dec dec_key left sys _ _ (λ status.
      require-Settles dec dec_key left sys status _ _ _
        (derive_account_descriptor-Preserves request)
        (λ (_, account).
          require-Settles dec dec_key left sys status _ _ _ (outside _)
            (λ is_deployed. finish-Settles dec dec_key left sys status _ _ _ refl)))

  pub deploy-Handles :
      (request : DeployAccountRequest)
      → Handles dec dec_key sys left OperationKind.deploy_account (deploy sys dec request)
  unfolding deploy
  deploy-Handles request = tracked-Handles dec dec_key left sys _ _ (λ status.
      require-Settles dec dec_key left sys status _ _ _ (known _) (λ _.
        require-Settles dec dec_key left sys status _ _ _
          (derive_account_descriptor-Preserves request.derivation)
          (λ (private_key, account).
            require-Settles dec dec_key left sys status _ _ _ (known _) (λ _.
              require-Settles dec dec_key left sys status _ _ _ (outside _)
                (conclude-Settles status account)))))

  -- A call that derives, checks or deploys an account, on a well-formed gateway with `left` and
  -- three revisions left ends, and leaves it well formed with `left` revisions. The operation of a
  -- response is final. An error is recorded as the reason why the operation was rejected, unless no
  -- id could be made for it, where nothing is recorded. In both cases the last thing that the call
  -- does outside is to read the clock, and a query for the id at a time that is at most the time to
  -- live after that reading gets that status.
  pub accounts-Handle :
      (request : DerivationRequest) (deployment : DeployAccountRequest)
      → Handles dec dec_key sys left OperationKind.derive_account (derive sys dec request)
        × Handles dec dec_key sys left OperationKind.check_deployment
            (check_account sys dec request)
        × Handles dec dec_key sys left OperationKind.deploy_account (deploy sys dec deployment)
  accounts-Handle request deployment =
      (derive-Handles request, check_account-Handles request, deploy-Handles deployment)
