-- ===== src/Gateway/Tests/Requests.antt =====
-- The gateway against a small outside world, whose state is a clock that moves at each reading.
use mathlib.Core.List.{head-eq_of_cons-eq, tail-eq_of_cons-eq}
use native.Mathlib.Decide.{ℕ_discrete}
use krusty_kms.Prelude.{
  ℕ, ◌+◌, ◌≤◌, ◌<◌, ◌≡◌, refl, ap₂, List, [], ◌∷◌, none, some, Bool, true, false, length, arith,
  inl,
}
use krusty_kms.Prelude.Assoc.{lookup, remove}
use krusty_kms.Domain.Error.{
  invalid_sign_request, secret_unavailable, gateway_error, fails, returns,
}
use krusty_kms.Domain.Account.{
  OperationId, mainnet, starknet_account, public_key, open_zeppelin, DerivationRequest,
  expected_coin_type, validate_for, validate_derivation,
}
use krusty_kms.Domain.Runtime.{
  AccountSnapshot, AccountSnapshotRequest, DeployAccountRequest, DeployAccountResult, active_view,
  latest, wait_for_acceptance,
}
use krusty_kms.Domain.Signing.{SignRequest, stark_hash, starknet, transaction_hash, validate_sign}
use krusty_kms.Gateway.System.{System, GatewayBackend, SecretResolver, Kms, submitted}
use krusty_kms.Gateway.Snapshot.{cached_snapshot_response}
use krusty_kms.Gateway.Cache.{SnapshotCacheKey, from_request, store_snapshot, evict_front}
use krusty_kms.Gateway.Operations.{default_retention}
use krusty_kms.Gateway.Validation.{ensure_chain_matches, validate_wait_mode, validate_cache_policy}
use krusty_kms.Gateway.Runtime.{
  Gateway, GatewayResponse, tracked, attempt, ◌>>=◌, begin_operation, call, new_operation_id,
  operation_prefix, set_operation, record_status, finish,
}
use krusty_kms.Gateway.Runtime.Settling.{Ready}
use krusty_kms.Gateway.Serving.{
  Reply, new_gateway, serve_all, signs, queries, deploys, serve_all-new_gateway,
}
use krusty_kms.Gateway.Query.{
  query_snapshot, read_cache, write_cache, serve_cached, refresh_snapshot, fetch_snapshot,
  fetch_nonce, fetch_balances,
}
use krusty_kms.Gateway.AccountClass.{resolve_account_class, open_zeppelin_hash}
use krusty_kms.Gateway.Accounts.{deploy, derive_account_descriptor, conclude, resolve_salt}
use krusty_kms.Gateway.Signing.{sign_request, sign_payload, sign_stark}
use krusty_kms.Gateway.Authorized.{Authorized}
use krusty_kms.Gateway.Authorized.Refusals.{IsRefused, sign_request-refused}
use krusty_kms.Gateway.Authorized.Deployments.{IsBoundedWait, IsStarknet, Agrees, deploy-IsStarknet}
use krusty_kms.Gateway.Authorized.Snapshots.{IsQuantized, query_snapshot-IsQuantized}

unfoldable pub list_discrete : {A : Type 0} → Discrete A → Discrete (List A)
list_discrete d [] [] = yes refl
list_discrete d [] (y ∷ ys) = no (λ e. cc e)
list_discrete d (x ∷ xs) [] = no (λ e. cc e)
list_discrete d (x ∷ xs) (y ∷ ys) = elim (d x y) [
  | yes p ↦ elim (list_discrete d xs ys) [
    | yes q ↦ yes (ap₂ ◌∷◌ p q)
    | no n ↦ no (λ e. n (tail-eq_of_cons-eq e))
  ]
  | no n ↦ no (λ e. n (head-eq_of_cons-eq e))
]

unfoldable pub id_discrete : Discrete OperationId
unfolding ℕ_discrete list_discrete
id_discrete = list_discrete ℕ_discrete

pub key_discrete : Discrete SnapshotCacheKey
key_discrete = hlevel (ℕ_discrete)

abbrev backend : GatewayBackend ℕ
backend = record {
  chain_id = mainnet;
  check_deployed = λ address block e. (returns true, e);
  deploy_open_zeppelin = λ key account mode e. (returns (submitted 77), e);
  nonce = λ address block e. (returns 3, e);
  token_balance = λ address token block e. (returns (57 ∷ []), e);
  block_metadata = λ block e.
      (returns (record { selector = block; block_hash = none; block_number = some 12 }), e);
}

abbrev resolver : SecretResolver ℕ
resolver = record {
  resolve_private_key = λ secret domain path e. (returns 5, e);
  resolve_nostr_private_key = λ secret path e. (returns (5 ∷ []), e);
}

-- No cryptography: numbers in its place.
abbrev pub plain_kms : Kms
plain_kms = record {
  oz_latest = λ chain. returns 9;
  oz_from_manifest = λ chain version. returns 8;
  calculate_contract_address = λ salt hash calldata deployer. returns (hash + salt);
  stark_public_key = λ key. returns (key + 1);
  sign_stark_hash = λ key hash. returns (record { public_key = key + 1; r = hash; s = key });
  sign_nostr_event_id = λ key event_id. returns (record { public_key = key; signature = event_id });
  sign_nostr_message = λ key message. returns (record { public_key = key; signature = message });
}

abbrev empty_text : List ℕ → Bool
empty_text [] = true
empty_text (c ∷ text) = false

abbrev sys : System ℕ
sys = record {
  backend = backend;
  secret_resolver = resolver;
  kms = plain_kms;
  now_ms = λ e. (e, e + 1);
  random_bytes = λ e. (some (171 ∷ 7 ∷ []), e);
  hex_encode = λ bytes. bytes;
  is_blank = empty_text;
}

abbrev fresh : Gateway ℕ
fresh = new_gateway default_retention 12_000

abbrev hash_request : Bool → SignRequest
hash_request allow_raw_stark_hash = stark_hash (record {
  secret = 107 ∷ [];
  key_domain = starknet;
  derivation_path = record { coin_type = 9004; account_index = 0; address_index = 0 };
  chain_id = mainnet;
  domain = transaction_hash;
  hash = 99;
  allow_raw_stark_hash = allow_raw_stark_hash;
})

abbrev derivation : DerivationRequest
derivation = record {
  secret = 107 ∷ [];
  key_domain = starknet_account;
  chain_id = mainnet;
  path = record { coin_type = 9004; account_index = 0; address_index = 0 };
  account_class = record {
    kind = open_zeppelin;
    class_hash = none;
    source_label = none;
    allow_unlisted_class_hash = false;
  };
  salt_policy = public_key;
}

abbrev deployment : DeployAccountRequest
deployment = record {
  derivation = derivation;
  mode = wait_for_acceptance (record { poll_interval_ms = 1_000; timeout_ms = 60_000 });
}

abbrev pub snapshot_request : AccountSnapshotRequest
snapshot_request = record {
  chain_id = mainnet;
  address = 42;
  tokens = record { symbol = 69 ∷ []; address = 8; decimals = 18 } ∷ [];
  block = latest;
  mode = active_view;
  cache_policy = record { ttl_ms = 1_000; stale_while_revalidate_ms = 0 };
}

serve_all-new_gateway_example :
    (replies : List Reply) × (g' : Gateway ℕ) × (serve_all id_discrete key_discrete sys
        (signs (hash_request true) ∷ queries snapshot_request ∷ deploys deployment ∷ [])
        (new_gateway default_retention 12_000)
      ≡ some (replies, g'))
    × (length replies ≡ 3)
    × Ready id_discrete key_discrete 0 g'
serve_all-new_gateway_example =
    serve_all-new_gateway id_discrete key_discrete sys default_retention 12_000
      (signs (hash_request true) ∷ queries snapshot_request ∷ deploys deployment ∷ []) (omega arith)
      (omega arith)

-- What the handlers are made of.
program : Unit {0}
unfolding new_gateway sign_request tracked attempt ◌>>=◌ begin_operation call new_operation_id
    operation_prefix set_operation record_status validate_sign validate_for expected_coin_type
    ensure_chain_matches sign_payload sign_stark finish deploy derive_account_descriptor
    validate_derivation validate_wait_mode conclude query_snapshot validate_cache_policy read_cache
    write_cache serve_cached refresh_snapshot fetch_snapshot fetch_nonce fetch_balances
    store_snapshot evict_front from_request cached_snapshot_response resolve_salt lookup remove
    resolve_account_class open_zeppelin_hash
program = tt

deployed :
    (response : GatewayResponse DeployAccountResult) × (g' : Gateway ℕ) × (deploy sys id_discrete
        deployment fresh
      ≡ some (returns response, g'))
unfolding program
deployed = (_, _, refl)

queried :
    (response : GatewayResponse AccountSnapshot) × (g' : Gateway ℕ) × (query_snapshot id_discrete
        key_discrete sys snapshot_request fresh
      ≡ some (returns response, g'))
unfolding program key_discrete
queried = (_, _, refl)

deploy-IsStarknet_example :
    IsBoundedWait deployment.mode
    × (deployment.derivation.account_class.kind ≡ open_zeppelin)
    × IsStarknet mainnet deployment.derivation
    × Agrees deployed.0
deploy-IsStarknet_example =
    deploy-IsStarknet id_discrete sys deployment fresh deployed.1 deployed.0 deployed.2

query_snapshot-IsQuantized_example :
    (snapshot_request.chain_id ≡ mainnet)
    × (0 < snapshot_request.cache_policy.ttl_ms)
    × (length snapshot_request.tokens ≤ 16)
    × IsQuantized queried.0.value
query_snapshot-IsQuantized_example =
    query_snapshot-IsQuantized id_discrete key_discrete sys snapshot_request fresh queried.1
      queried.0 queried.2

-- A resolver that has no key, and moves the outside world when it is asked.
abbrev no_keys : SecretResolver ℕ
no_keys = record {
  resolve_private_key =
      λ secret domain path e. (fails (gateway_error secret_unavailable false), e + 1);
  resolve_nostr_private_key =
      λ secret path e. (fails (gateway_error secret_unavailable false), e + 1);
}

silent-IsRefused : IsRefused id_discrete sys (hash_request false)
unfolding program
silent-IsRefused = inl (invalid_sign_request, refl)

sign_request-refused_example :
    sign_request id_discrete sys (hash_request false) fresh
    ≡ sign_request id_discrete (record sys { secret_resolver = no_keys }) (hash_request false) fresh
sign_request-refused_example =
    sign_request-refused id_discrete sys no_keys (hash_request false) fresh silent-IsRefused
