-- ===== src/Gateway/Accounts.antt =====
-- crates/gateway/src/accounts.rs, and `derive_account_descriptor` of crates/gateway/src/gateway.rs.
-- `resolve_salt` is `SaltPolicy::resolve` of crates/kms/src/account_class.rs.
use krusty_kms.Prelude.{ℕ, none, some, Bool, true, false}
use krusty_kms.Domain.Error.{
  GatewayErrorCode as Code, gateway_error, GatewayResult, returns, map_err, check,
}
use krusty_kms.Domain.Account.{
  OperationId, FeltHex, KeyDomain, starknet_account, tongo_account, nostr_event, SaltPolicySpec,
  public_key, zero_salt, explicit, AccountClassKind, open_zeppelin, argent, braavos,
  DerivationRequest, validate_derivation, AccountDescriptor, DeploymentState, deployed, undeployed,
  deploying, CheckDeploymentResult,
}
use krusty_kms.Domain.Runtime.{
  latest, DeployAccountRequest, DeployAccountResult, OperationStatus, derive_account,
  check_deployment, deploy_account, completed, submitted, accepted,
}
use krusty_kms.Gateway.AccountClass.{
  ResolvedAccountClass, class_hash, build_constructor_calldata, resolve_account_class,
  calculate_address,
}
use krusty_kms.Gateway.Errors.{map_kms_error, map_domain_error}
use krusty_kms.Gateway.System
use krusty_kms.Gateway.System.{System, DeployExecution}
use krusty_kms.Gateway.Validation.{ensure_chain_matches, validate_wait_mode}
use krusty_kms.Gateway.Runtime.{GatewayResponse, M, pure, call, try_call, finish, require, tracked}

abbrev pub is_starknet : KeyDomain → Bool
is_starknet starknet_account = true
is_starknet tongo_account = false
is_starknet nostr_event = false

abbrev pub is_open_zeppelin : AccountClassKind → Bool
is_open_zeppelin open_zeppelin = true
is_open_zeppelin argent = false
is_open_zeppelin braavos = false

unfoldable pub resolve_salt : SaltPolicySpec → FeltHex → FeltHex
resolve_salt public_key key = key
resolve_salt zero_salt key = 0
resolve_salt (explicit salt) key = salt

module _ {E : Type 0} (sys : System E) where
  abbrev describe : DerivationRequest → ResolvedAccountClass → FeltHex → FeltHex → AccountDescriptor
  describe request account_class key address = record {
    address = address;
    public_key = key;
    class_hash = class_hash account_class;
    salt = resolve_salt request.salt_policy key;
    constructor_calldata = build_constructor_calldata account_class key;
    deployer_address = 0;
    provenance = record {
      chain_id = request.chain_id;
      key_domain = request.key_domain;
      derivation_path = request.path;
      class_hash = some (class_hash account_class);
    };
  }

  -- The private key, and the account.
  unfoldable pub derive_account_descriptor :
      DerivationRequest → M E (GatewayResult (ℕ × AccountDescriptor))
  derive_account_descriptor request =
      try_call (pure (ensure_chain_matches sys.backend.chain_id request.chain_id)) (λ _.
        try_call (pure (map_err map_domain_error (validate_derivation request))) (λ _.
          try_call
            (pure (
              check (is_starknet request.key_domain)
                (gateway_error Code.unsupported_key_domain false)))
            (λ _.
              try_call
                (call (
                  sys.secret_resolver.resolve_private_key request.secret request.key_domain
                    request.path))
                (λ private_key.
                  try_call (pure (map_err map_kms_error (sys.kms.stark_public_key private_key)))
                    (λ key.
                      try_call
                        (pure
                          (resolve_account_class sys.kms request.account_class request.chain_id))
                        (λ account_class.
                          try_call
                            (pure (
                              map_err map_kms_error (
                                calculate_address sys.kms account_class key
                                  (resolve_salt request.salt_policy key))))
                            (λ address. pure (
                              returns
                                (private_key, describe request account_class key address)))))))))

  module _ (dec : Discrete OperationId) where
    unfoldable pub derive :
        DerivationRequest → M E (GatewayResult (GatewayResponse AccountDescriptor))
    derive request = tracked dec sys derive_account (λ queued_status.
        require dec sys queued_status (derive_account_descriptor request) none (λ (_, account).
          finish dec sys queued_status completed (some account.provenance) account))

    abbrev pub deployment_state : Bool → DeploymentState
    deployment_state true = deployed
    deployment_state false = undeployed

    unfoldable pub check_account :
        DerivationRequest → M E (GatewayResult (GatewayResponse CheckDeploymentResult))
    check_account request = tracked dec sys check_deployment (λ queued_status.
        require dec sys queued_status (derive_account_descriptor request) none (λ (_, account).
          require dec sys queued_status (call (sys.backend.check_deployed account.address latest))
            (some account.provenance)
            (λ is_deployed.
              finish dec sys queued_status completed (some account.provenance)
                (record { account = account; deployment = deployment_state is_deployed }))))

    unfoldable pub conclude :
        OperationStatus
        → AccountDescriptor
        → DeployExecution
        → M E (GatewayResult (GatewayResponse DeployAccountResult))
    conclude queued_status account System.already_deployed =
        finish dec sys queued_status completed (some account.provenance)
          (record { account = account; deployment = deployed; already_deployed = true })
    conclude queued_status account (System.submitted tx_hash) =
        finish dec sys queued_status (submitted tx_hash) (some account.provenance)
          (record { account = account; deployment = deploying tx_hash; already_deployed = false })
    conclude queued_status account (System.accepted tx_hash) =
        finish dec sys queued_status (accepted tx_hash) (some account.provenance)
          (record { account = account; deployment = deployed; already_deployed = false })

    unfoldable pub deploy :
        DeployAccountRequest → M E (GatewayResult (GatewayResponse DeployAccountResult))
    deploy request = tracked dec sys deploy_account (λ queued_status.
        require dec sys queued_status (pure (validate_wait_mode request.mode)) none (λ _.
          require dec sys queued_status (derive_account_descriptor request.derivation) none
            (λ (private_key, account).
              require dec sys queued_status
                (pure (
                  check (is_open_zeppelin request.derivation.account_class.kind)
                    (gateway_error Code.unsupported_account_class false)))
                (some account.provenance)
                (λ _.
                  require dec sys queued_status
                    (call (sys.backend.deploy_open_zeppelin private_key account request.mode))
                    (some account.provenance) (conclude queued_status account)))))
