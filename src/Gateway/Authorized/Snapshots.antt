-- ===== src/Gateway/Authorized/Snapshots.antt =====
-- What crates/gateway/src/snapshot.rs shows, and to which requests.
use krusty_kms.Prelude.{
  ℕ, ◌≤◌, ◌<◌, ◌≡◌, ◌%◌, refl, Option, none, some, true, length, arith, ltb, not,
}
use krusty_kms.Domain.Error.{GatewayError, returns, check-eq-returns}
use krusty_kms.Domain.Account.{OperationId}
use krusty_kms.Domain.Runtime.{
  AccountSnapshot, AccountSnapshotRequest, CachePolicy, OperationStatus,
}
use krusty_kms.Gateway.Snapshot.{
  SnapshotCacheEntry, snapshot_time_quantum_ms, quantize_down, cache_metadata, apply_cache_metadata,
  cached_snapshot_response, stale_snapshot_fallback,
}
use krusty_kms.Gateway.Cache.{SnapshotCacheKey, from_request}
use krusty_kms.Gateway.System.{System}
use krusty_kms.Gateway.Validation.{validate_cache_policy}
use krusty_kms.Gateway.Runtime.{Gateway, GatewayResponse}
use krusty_kms.Gateway.Runtime.Returning.{
  Returns, >>=-Returns, attempt-Returns, attempt_that-Returns, fails-Returns, value-Returns,
  refuse-Returns, require_known-Returns, tracked-Returns, finish-Returns,
}
use krusty_kms.Gateway.Query.{
  fetch_snapshot, serve_stale, refresh_snapshot, serve_cached, query_snapshot, max_snapshot_tokens,
}
use krusty_kms.Gateway.Authorized.{ensure_chain-eq}

-- The time that a snapshot shows is a multiple of the quantum.
abbrev pub IsQuantized : AccountSnapshot → Type 0
IsQuantized s = s.cache.generated_at_ms % snapshot_time_quantum_ms ≡ 0

quantize_down-IsQuantized : (value_ms : ℕ) → quantize_down value_ms % snapshot_time_quantum_ms ≡ 0
unfolding quantize_down
quantize_down-IsQuantized value_ms = omega arith

cached-IsQuantized :
    (request : AccountSnapshotRequest) (cached : Option SnapshotCacheEntry) (now_ms : ℕ)
    {s : AccountSnapshot}
    → cached_snapshot_response request cached now_ms ≡ some s
    → IsQuantized s
unfolding cached_snapshot_response apply_cache_metadata cache_metadata
cached-IsQuantized request none now_ms h = cc
cached-IsQuantized request (some entry) now_ms h =
    ground (arith, quantize_down-IsQuantized entry.generated_at_ms)

fallback-IsQuantized :
    (request : AccountSnapshotRequest) (cached : Option SnapshotCacheEntry) (now_ms : ℕ)
    {s : AccountSnapshot}
    → stale_snapshot_fallback request cached now_ms ≡ some s
    → IsQuantized s
unfolding stale_snapshot_fallback apply_cache_metadata cache_metadata
fallback-IsQuantized request none now_ms h = cc
fallback-IsQuantized request (some entry) now_ms h =
    ground (arith, quantize_down-IsQuantized entry.generated_at_ms)

positive_ttl :
    (policy : CachePolicy) {u : Unit {0}}
    → validate_cache_policy policy ≡ returns u
    → 0 < policy.ttl_ms
unfolding validate_cache_policy
positive_ttl policy h = ground arith

few : (n : ℕ) → not (ltb max_snapshot_tokens n) ≡ true → n ≤ max_snapshot_tokens
few n h = ground arith

abbrev ShowsQuantized : GatewayResponse AccountSnapshot → Type 0
ShowsQuantized response = IsQuantized response.value

module _ {E : Type 0} (dec : Discrete OperationId) (dec_key : Discrete SnapshotCacheKey)
    (sys : System E) where
  fetch_snapshot-IsQuantized :
      (request : AccountSnapshotRequest) (now_ms : ℕ)
      → Returns IsQuantized (fetch_snapshot sys request now_ms)
  unfolding fetch_snapshot
  fetch_snapshot-IsQuantized request now_ms =
      attempt-Returns _ _ _ _ (fails-Returns _) (λ is_deployed.
        attempt-Returns _ _ _ _ (fails-Returns _) (λ nonce.
          attempt-Returns _ _ _ _ (fails-Returns _) (λ balances.
            >>=-Returns _ _ _ (λ block. value-Returns _ _ (quantize_down-IsQuantized now_ms)))))

  serve_stale-Returns :
      (status : OperationStatus) (error : GatewayError) (found : Option AccountSnapshot)
      → ((s : AccountSnapshot) → found ≡ some s → IsQuantized s)
      → Returns ShowsQuantized (serve_stale dec dec_key sys status error found)
  unfolding serve_stale
  serve_stale-Returns status error (some s) h = finish-Returns _ dec sys status _ _ _ (h s refl)
  serve_stale-Returns status error none h = refuse-Returns _ dec sys status error none

  refresh_snapshot-Returns :
      (status : OperationStatus) (request : AccountSnapshotRequest) (key : SnapshotCacheKey)
      (cached : Option SnapshotCacheEntry) (now_ms : ℕ)
      → Returns ShowsQuantized (refresh_snapshot dec dec_key sys status request key cached now_ms)
  unfolding refresh_snapshot
  refresh_snapshot-Returns status request key cached now_ms =
      attempt_that-Returns IsQuantized _ _ _ _ (fetch_snapshot-IsQuantized request now_ms)
        (λ error.
          serve_stale-Returns status error _
            (λ s found. fallback-IsQuantized request cached now_ms found))
        (λ snapshot quantized.
          >>=-Returns _ _ _ (λ _. finish-Returns _ dec sys status _ _ snapshot quantized))

  serve_cached-Returns :
      (status : OperationStatus) (request : AccountSnapshotRequest)
      (cached : Option SnapshotCacheEntry) (now_ms : ℕ) (found : Option AccountSnapshot)
      → ((s : AccountSnapshot) → found ≡ some s → IsQuantized s)
      → Returns ShowsQuantized (serve_cached dec dec_key sys status request cached now_ms found)
  unfolding serve_cached
  serve_cached-Returns status request cached now_ms (some s) h =
      finish-Returns _ dec sys status _ _ s (h s refl)
  serve_cached-Returns status request cached now_ms none h =
      refresh_snapshot-Returns status request (from_request request) cached now_ms

  -- A snapshot query that returns a snapshot was for the gateway's own chain, with a positive time to
  -- live and at most sixteen tokens, and the time that its metadata shows is a multiple of the quantum,
  -- whether the snapshot is fresh, from the cache, or served because the backend failed.
  pub query_snapshot-IsQuantized :
      (request : AccountSnapshotRequest) (g g' : Gateway E)
      (response : GatewayResponse AccountSnapshot)
      → query_snapshot dec dec_key sys request g ≡ some (returns response, g')
      → (request.chain_id ≡ sys.backend.chain_id)
        × (0 < request.cache_policy.ttl_ms)
        × (length request.tokens ≤ 16)
        × IsQuantized response.value
  unfolding query_snapshot
  query_snapshot-IsQuantized request = tracked-Returns _ dec sys _ _ (λ status.
      require_known-Returns _ dec sys status _ _ _ (λ _ chain.
        require_known-Returns _ dec sys status _ _ _ (λ _ policy.
          require_known-Returns _ dec sys status _ _ _ (λ _ tokens. >>=-Returns _ _ _ (λ now_ms.
            >>=-Returns _ _ _ (λ cached g g' response e. (
              ensure_chain-eq sys.backend.chain_id request.chain_id chain,
              positive_ttl request.cache_policy policy,
              few _ (check-eq-returns _ _ tokens),
              serve_cached-Returns status request cached now_ms _
                  (λ s found. cached-IsQuantized request cached now_ms found) g g' response e,
            )))))))
