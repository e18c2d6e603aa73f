-- ===== src/Gateway/Handled/Queries.antt =====
-- What every call of the handler in crates/gateway/src/snapshot.rs comes to.
use krusty_kms.Prelude.{ℕ, ◌+◌, refl, List, [], ◌∷◌, Option, none, some, Bool, true, false}
use krusty_kms.Prelude.Assoc.{lookup}
use krusty_kms.Domain.Error.{GatewayError}
use krusty_kms.Domain.Account.{OperationId}
use krusty_kms.Domain.Runtime.{
  AccountSnapshot, AccountSnapshotRequest, OperationStatus, OperationKind, TrackedToken,
}
use krusty_kms.Gateway.Snapshot.{SnapshotCacheEntry}
use krusty_kms.Gateway.Cache.{SnapshotCacheKey, from_request}
use krusty_kms.Gateway.Cache.Storing.{store_snapshot-Stored}
use krusty_kms.Gateway.System.{System}
use krusty_kms.Gateway.Runtime.Settling.{
  Settles, Preserves, >>=-Preserves, >>=-Settles, attempt-Settles,
}
use krusty_kms.Gateway.Runtime.Handlers.{
  Handles, refuse-Settles, finish-Settles, require-Settles, tracked-Handles,
}
use krusty_kms.Gateway.Query.{
  fetch_nonce, fetch_balances, fetch_snapshot, read_cache, write_cache, serve_stale,
  refresh_snapshot, serve_cached, query_snapshot,
}
use krusty_kms.Gateway.Handled.{try_call-Preserves, outside, known}

module _ {E : Type 0} (dec : Discrete OperationId) (dec_key : Discrete SnapshotCacheKey)
    (sys : System E) (left : ℕ) where
  fetch_nonce-Preserves :
      (request : AccountSnapshotRequest) (is_deployed : Bool)
      → Preserves dec dec_key (left + 1) (fetch_nonce sys request is_deployed)
  unfolding fetch_nonce
  fetch_nonce-Preserves request true =
      try_call-Preserves dec dec_key sys left _ _ (outside dec dec_key sys left _)
        (λ _. known dec dec_key sys left _)
  fetch_nonce-Preserves request false = known dec dec_key sys left _

  fetch_balances-Preserves :
      (request : AccountSnapshotRequest) (tokens : List TrackedToken)
      → Preserves dec dec_key (left + 1) (fetch_balances sys request tokens)
  unfolding fetch_balances
  fetch_balances-Preserves request [] = known dec dec_key sys left _
  fetch_balances-Preserves request (token ∷ tokens) =
      try_call-Preserves dec dec_key sys left _ _ (outside dec dec_key sys left _) (λ _.
        try_call-Preserves dec dec_key sys left _ _ (fetch_balances-Preserves request tokens)
          (λ _. known dec dec_key sys left _))

  fetch_snapshot-Preserves :
      (request : AccountSnapshotRequest) (generated_at_ms : ℕ)
      → Preserves dec dec_key (left + 1) (fetch_snapshot sys request generated_at_ms)
  unfolding fetch_snapshot
  fetch_snapshot-Preserves request generated_at_ms =
      try_call-Preserves dec dec_key sys left _ _ (outside dec dec_key sys left _) (λ is_deployed.
        try_call-Preserves dec dec_key sys left _ _ (fetch_nonce-Preserves request is_deployed)
          (λ _.
            try_call-Preserves dec dec_key sys left _ _
              (fetch_balances-Preserves request request.tokens)
              (λ _.
                >>=-Preserves dec dec_key (left + 1) _ _ (outside dec dec_key sys left _)
                  (λ _. known dec dec_key sys left _))))

  read_cache-Preserves :
      (key : SnapshotCacheKey)
      → Preserves dec dec_key (left + 1) (read_cache {E = E} dec dec_key sys key)
  unfolding read_cache
  read_cache-Preserves key g ready = (lookup dec_key key g.snapshot_cache.entries, g, refl, ready)

  write_cache-Preserves :
      (key : SnapshotCacheKey) (snapshot : AccountSnapshot) (now_ms : ℕ)
      → Preserves dec dec_key (left + 1) (write_cache dec dec_key sys key snapshot now_ms)
  unfolding write_cache
  write_cache-Preserves key snapshot now_ms g ready =
      let (after, e, stored) =
        store_snapshot-Stored dec_key g.snapshot_cache_max_entries g.snapshot_cache key snapshot
          now_ms ready.positive ready.cache in
      (
        tt,
        record g { snapshot_cache = after },
        rw e refl,
        record {
          store = ready.store;
          room = ready.room;
          cache = stored.valid;
          positive = ready.positive;
        },
      )

  serve_stale-Settles :
      (status : OperationStatus) (error : GatewayError) (found : Option AccountSnapshot)
      → Settles dec dec_key sys left status (serve_stale dec dec_key sys status error found)
  unfolding serve_stale
  serve_stale-Settles status error (some value) =
      finish-Settles dec dec_key left sys status _ _ _ refl
  serve_stale-Settles status error none = refuse-Settles dec dec_key left sys status error none

  refresh_snapshot-Settles :
      (status : OperationStatus) (request : AccountSnapshotRequest) (key : SnapshotCacheKey)
      (cached : Option SnapshotCacheEntry) (now_ms : ℕ)
      → Settles dec dec_key sys left status
          (refresh_snapshot dec dec_key sys status request key cached now_ms)
  unfolding refresh_snapshot
  refresh_snapshot-Settles status request key cached now_ms =
      attempt-Settles dec dec_key sys left status _ _ _ (fetch_snapshot-Preserves request now_ms)
        (λ error. serve_stale-Settles status error _)
        (λ snapshot.
          >>=-Settles dec dec_key sys left status _ _ (write_cache-Preserves key snapshot now_ms)
            (λ _. finish-Settles dec dec_key left sys status _ _ snapshot refl))

  serve_cached-Settles :
      (status : OperationStatus) (request : AccountSnapshotRequest)
      (cached : Option SnapshotCacheEntry) (now_ms : ℕ) (found : Option AccountSnapshot)
      → Settles dec dec_key sys left status
          (serve_cached dec dec_key sys status request cached now_ms found)
  unfolding serve_cached
  serve_cached-Settles status request cached now_ms (some value) =
      finish-Settles dec dec_key left sys status _ _ value refl
  serve_cached-Settles status request cached now_ms none =
      refresh_snapshot-Settles status request (from_request request) cached now_ms

  pub query_snapshot-Handles :
      (request : AccountSnapshotRequest)
      → Handles dec dec_key sys left OperationKind.query_account_snapshot
          (query_snapshot dec dec_key sys request)
  unfolding query_snapshot
  query_snapshot-Handles request = tracked-Handles dec dec_key left sys _ _ (λ status.
      require-Settles dec dec_key left sys status _ _ _ (known dec dec_key sys left _) (λ _.
        require-Settles dec dec_key left sys status _ _ _ (known dec dec_key sys left _) (λ _.
          require-Settles dec dec_key left sys status _ _ _ (known dec dec_key sys left _) (λ _.
            >>=-Settles dec dec_key sys left status _ _ (outside dec dec_key sys left _) (λ now_ms.
              >>=-Settles dec dec_key sys left status _ _
                (read_cache-Preserves (from_request request))
                (λ cached. serve_cached-Settles status request cached now_ms _))))))
