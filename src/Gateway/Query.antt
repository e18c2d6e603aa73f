-- ===== src/Gateway/Query.antt =====
-- crates/gateway/src/snapshot.rs: the handler of snapshot queries.
use krusty_kms.Prelude.{ℕ, List, [], ◌∷◌, Option, none, some, Bool, true, false, not, ltb, length}
use krusty_kms.Prelude.Assoc
use krusty_kms.Domain.Error.{
  GatewayErrorCode as Code, GatewayError, gateway_error, GatewayResult, fails, returns, check,
}
use krusty_kms.Domain.Account.{OperationId, undeployed, deployed, FeltHex, DeploymentState}
use krusty_kms.Domain.Runtime.{
  AccountSnapshot, AccountSnapshotRequest, TokenBalanceSnapshot, TrackedToken,
  SnapshotBlockMetadata, miss, OperationStatus, query_account_snapshot, completed,
}
use krusty_kms.Gateway.Snapshot.{
  SnapshotCacheEntry, quantize_down, cached_snapshot_response, stale_snapshot_fallback,
}
use krusty_kms.Gateway.Cache.{SnapshotCache, SnapshotCacheKey, from_request, store_snapshot}
use krusty_kms.Gateway.System.{System}
use krusty_kms.Gateway.Validation.{ensure_chain_matches, validate_cache_policy}
use krusty_kms.Gateway.Runtime.{
  Gateway, GatewayResponse, M, pure, ◌>>=◌, ◌>>◌, call, attempt, try_call, refuse, finish, require,
  tracked,
}

abbrev pub max_snapshot_tokens : ℕ
max_snapshot_tokens = 16

module _ {E : Type 0} (sys : System E) (request : AccountSnapshotRequest) where
  unfoldable pub fetch_nonce : Bool → M E (GatewayResult (Option FeltHex))
  fetch_nonce false = pure (returns none)
  fetch_nonce true =
      try_call (call (sys.backend.nonce request.address request.block))
        (λ nonce. pure (returns (some nonce)))

  unfoldable pub fetch_balances :
      List TrackedToken → M E (GatewayResult (List TokenBalanceSnapshot))
  fetch_balances [] = pure (returns [])
  fetch_balances (token ∷ tokens) =
      try_call (call (sys.backend.token_balance request.address token request.block)) (λ amount_raw.
        try_call (fetch_balances tokens) (λ balances.
          pure (returns (record { token = token; amount_raw = amount_raw } ∷ balances))))

  -- Without block metadata the selector stands alone.
  abbrev pub block_or_selector : GatewayResult SnapshotBlockMetadata → SnapshotBlockMetadata
  block_or_selector (returns block) = block
  block_or_selector (fails _) = record {
    selector = request.block;
    block_hash = none;
    block_number = none;
  }

  abbrev pub deployment_of : Bool → DeploymentState
  deployment_of true = deployed
  deployment_of false = undeployed

  unfoldable pub fetch_snapshot : ℕ → M E (GatewayResult AccountSnapshot)
  fetch_snapshot generated_at_ms =
      try_call (call (sys.backend.check_deployed request.address request.block)) (λ is_deployed.
        try_call (fetch_nonce is_deployed) (λ nonce.
          try_call (fetch_balances request.tokens) (λ balances. do
            block ← call (sys.backend.block_metadata request.block)
            pure (
                returns (record {
                  address = request.address;
                  deployment = deployment_of is_deployed;
                  nonce = nonce;
                  balances = balances;
                  block = block_or_selector block;
                  cache = record {
                    status = miss;
                    generated_at_ms = quantize_down generated_at_ms;
                    age_ms = 0;
                  };
                })))))

module _ {E : Type 0} (dec : Discrete OperationId) (dec_key : Discrete SnapshotCacheKey)
    (sys : System E) where
  -- `self.snapshot_cache.read().await.entries.get(&key).cloned()`
  unfoldable pub read_cache : SnapshotCacheKey → M E (Option SnapshotCacheEntry)
  read_cache key g = some (Assoc.lookup dec_key key g.snapshot_cache.entries, g)

  abbrev pub put_cache : Gateway E → Option SnapshotCache → Option (Unit {0} × Gateway E)
  put_cache g none = none
  put_cache g (some cache) = some (tt, record g { snapshot_cache = cache })

  -- `self.store_snapshot(key, snapshot, self.snapshot_cache_max_entries, now_ms).await`
  unfoldable pub write_cache : SnapshotCacheKey → AccountSnapshot → ℕ → M E (Unit {0})
  write_cache key snapshot now_ms g =
      put_cache g
        (store_snapshot dec_key g.snapshot_cache key snapshot g.snapshot_cache_max_entries now_ms)

  unfoldable pub serve_stale :
      OperationStatus
      → GatewayError
      → Option AccountSnapshot
      → M E (GatewayResult (GatewayResponse AccountSnapshot))
  serve_stale queued_status error (some value) = finish dec sys queued_status completed none value
  serve_stale queued_status error none = refuse dec sys queued_status error none

  unfoldable pub refresh_snapshot :
      OperationStatus
      → AccountSnapshotRequest
      → SnapshotCacheKey
      → Option SnapshotCacheEntry
      → ℕ
      → M E (GatewayResult (GatewayResponse AccountSnapshot))
  refresh_snapshot queued_status request key cached now_ms =
      attempt (fetch_snapshot sys request now_ms)
        (λ error. serve_stale queued_status error (stale_snapshot_fallback request cached now_ms))
        (λ snapshot. do
          write_cache key snapshot now_ms
          finish dec sys queued_status completed none snapshot)

  unfoldable pub serve_cached :
      OperationStatus
      → AccountSnapshotRequest
      → Option SnapshotCacheEntry
      → ℕ
      → Option AccountSnapshot
      → M E (GatewayResult (GatewayResponse AccountSnapshot))
  serve_cached queued_status request cached now_ms (some value) =
      finish dec sys queued_status completed none value
  serve_cached queued_status request cached now_ms none =
      refresh_snapshot queued_status request (from_request request) cached now_ms

  -- `Gateway::query_account_snapshot`
  unfoldable pub query_snapshot :
      AccountSnapshotRequest → M E (GatewayResult (GatewayResponse AccountSnapshot))
  query_snapshot request = tracked dec sys query_account_snapshot (λ queued_status.
      require dec sys queued_status
        (pure (ensure_chain_matches sys.backend.chain_id request.chain_id)) none
        (λ _.
          require dec sys queued_status (pure (validate_cache_policy request.cache_policy)) none
            (λ _.
              require dec sys queued_status
                (pure (
                  check (not (ltb max_snapshot_tokens (length request.tokens)))
                    (gateway_error Code.invalid_request false)))
                none
                (λ _. do
                  now_ms ← call sys.now_ms
                  cached ← read_cache (from_request request)
                  serve_cached queued_status request cached now_ms
                      (cached_snapshot_response request cached now_ms)))))
