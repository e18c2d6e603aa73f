-- ===== src/Gateway/Authorized/Deployments.antt =====
-- What a request has to be for crates/gateway/src/accounts.rs to deploy an account.
use krusty_kms.Prelude.{◌≤◌, ◌<◌, ◌≡◌, refl, ap, ◌∙◌, some, true, arith}
use krusty_kms.Domain.Error.{returns, check-eq-returns}
use krusty_kms.Domain.Account.{
  ChainId, OperationId, expected_coin_type, KeyDomain, starknet_account, tongo_account, nostr_event,
  DerivationRequest, validate_derivation, AccountDescriptor, open_zeppelin, AccountClassKind,
  argent, braavos, deployed, deploying,
}
use krusty_kms.Domain.Runtime.{
  OperationStatus, OperationState, DeployMode, submit_only, wait_for_acceptance,
  DeployAccountRequest, DeployAccountResult, submitted,
}
use krusty_kms.Gateway.System
use krusty_kms.Gateway.System.{System, DeployExecution}
use krusty_kms.Gateway.Validation.{
  validate_wait_mode, max_wait_timeout_ms, min_wait_poll_interval_ms,
}
use krusty_kms.Gateway.Runtime.{Gateway, GatewayResponse}
use krusty_kms.Gateway.Runtime.Returning.{
  Returns, require-Returns, require_known-Returns, require_that-Returns, known-Returns,
  attempt-Returns, fails-Returns, value-Returns, tracked-Returns, finish-Returns,
}
use krusty_kms.Gateway.Accounts.{
  derive_account_descriptor, conclude, deploy, is_starknet, is_open_zeppelin,
}
use krusty_kms.Gateway.Authorized.{ensure_chain-eq, map_err-eq-returns, coin_type-eq}

-- The wait is not an RPC flood, and is over within a quarter of an hour.
abbrev pub IsBoundedWait : DeployMode → Type 0
IsBoundedWait submit_only = Unit
IsBoundedWait (wait_for_acceptance wait) =
    (min_wait_poll_interval_ms ≤ wait.poll_interval_ms)
    × (wait.poll_interval_ms ≤ max_wait_timeout_ms)
    × (0 < wait.timeout_ms)
    × (wait.timeout_ms ≤ max_wait_timeout_ms)

validate_wait_mode-IsBoundedWait :
    (mode : DeployMode) {u : Unit {0}} → validate_wait_mode mode ≡ returns u → IsBoundedWait mode
unfolding validate_wait_mode
validate_wait_mode-IsBoundedWait submit_only h = tt
validate_wait_mode-IsBoundedWait (wait_for_acceptance wait) h =
    (ground arith, ground arith, ground arith, ground arith)

-- A Starknet key of the gateway's chain.
pub record IsStarknet (configured : ChainId) (request : DerivationRequest) : Type 0 where
  pub chain : request.chain_id ≡ configured
  pub domain : request.key_domain ≡ starknet_account
  pub coin : request.path.coin_type ≡ 9004

is_starknet-eq : (domain : KeyDomain) → is_starknet domain ≡ true → domain ≡ starknet_account
is_starknet-eq starknet_account h = refl
is_starknet-eq tongo_account h = cc
is_starknet-eq nostr_event h = cc

is_open_zeppelin-eq :
    (kind : AccountClassKind) → is_open_zeppelin kind ≡ true → kind ≡ open_zeppelin
is_open_zeppelin-eq open_zeppelin h = refl
is_open_zeppelin-eq argent h = cc
is_open_zeppelin-eq braavos h = cc

-- The operation's state tells what the result tells.
abbrev pub Agrees : GatewayResponse DeployAccountResult → Type 0
Agrees response = agrees response.operation.state
  where
    agrees : OperationState → Type 0
    agrees (submitted tx_hash) = response.value.deployment ≡ deploying tx_hash
    agrees _ = response.value.deployment ≡ deployed

module _ {E : Type 0} (dec : Discrete OperationId) (sys : System E) where
  derive-IsStarknet :
      (request : DerivationRequest)
      → Returns
          (λ _. IsStarknet sys.backend.chain_id request)
          (derive_account_descriptor sys request)
  unfolding derive_account_descriptor validate_derivation expected_coin_type
  derive-IsStarknet request = known-Returns _ _ _ _ (fails-Returns _) (λ _ chain.
      known-Returns _ _ _ _ (fails-Returns _) (λ _ valid.
        known-Returns _ _ _ _ (fails-Returns _) (λ _ domain.
          let starknet = is_starknet-eq request.key_domain (check-eq-returns _ _ domain) in
          let coin = coin_type-eq request.path request.key_domain (map_err-eq-returns _ _ valid) in
          let all : IsStarknet sys.backend.chain_id request = record {
            chain = ensure_chain-eq sys.backend.chain_id request.chain_id chain;
            domain = starknet;
            coin = coin ∙ ap expected_coin_type starknet;
          } in
          attempt-Returns _ _ _ _ (fails-Returns _) (λ private_key.
            attempt-Returns _ _ _ _ (fails-Returns _) (λ key.
              attempt-Returns _ _ _ _ (fails-Returns _) (λ account_class.
                attempt-Returns _ _ _ _ (fails-Returns _) (λ address. value-Returns _ _ all)))))))

  conclude-Agrees :
      (status : OperationStatus) (account : AccountDescriptor) (execution : DeployExecution)
      → Returns Agrees (conclude sys dec status account execution)
  unfolding conclude
  conclude-Agrees status account System.already_deployed =
      finish-Returns _ dec sys status _ _ _ refl
  conclude-Agrees status account (System.submitted tx_hash) =
      finish-Returns _ dec sys status _ _ _ refl
  conclude-Agrees status account (System.accepted tx_hash) =
      finish-Returns _ dec sys status _ _ _ refl

  -- A call that deploys an account and returns had a deployment mode without a wait, or a wait that
  -- polls no more than four times a second, and no less than once in a quarter of an hour, and lasts
  -- for at most a quarter of an hour. It had an OpenZeppelin account, a Starknet key with the coin type
  -- of Starknet, and the gateway's chain. The state of its operation says what the result says:
  -- submitted with the hash of the transaction that deploys the account, and otherwise deployed.
  pub deploy-IsStarknet :
      (request : DeployAccountRequest) (g g' : Gateway E)
      (response : GatewayResponse DeployAccountResult)
      → deploy sys dec request g ≡ some (returns response, g')
      → IsBoundedWait request.mode
        × (request.derivation.account_class.kind ≡ open_zeppelin)
        × IsStarknet sys.backend.chain_id request.derivation
        × Agrees response
  unfolding deploy
  deploy-IsStarknet request = tracked-Returns _ dec sys _ _ (λ status.
      require_known-Returns _ dec sys status _ _ _ (λ _ wait.
        require_that-Returns (λ _. IsStarknet sys.backend.chain_id request.derivation) _ dec sys
          status _ _ _ (derive-IsStarknet request.derivation)
          (λ (private_key, account) starknet.
            require_known-Returns _ dec sys status _ _ _ (λ _ kind.
              require-Returns _ dec sys status _ _ _ (λ execution g g' response e. (
                validate_wait_mode-IsBoundedWait request.mode wait,
                is_open_zeppelin-eq _ (check-eq-returns _ _ kind),
                starknet,
                conclude-Agrees status account execution g g' response e,
              ))))))
