-- ===== src/Gateway/Snapshot/Blindness.antt =====
-- What a caller can learn of an entry's exact generation time.
use krusty_kms.Prelude.{ℕ, ◌-◌, ◌/◌, ◌≤◌, ◌<◌, ◌≡◌, sym, ap, ap₂, ◌∙◌, Option, some, List, arith}
use krusty_kms.Gateway.Clock.{u64_max}
use krusty_kms.Gateway.Snapshot.{
  max_snapshot_ttl_ms, max_snapshot_stale_ms, snapshot_time_quantum_ms, max_cache_age,
  quantize_down, quantize_up, cache_metadata, SnapshotCacheEntry, apply_cache_metadata, served,
  cached_snapshot_response,
}
use krusty_kms.Domain.Account.{FeltHex, DeploymentState}
use krusty_kms.Domain.Runtime.{
  TokenBalanceSnapshot, SnapshotBlockMetadata, CacheMetadata, background_view, CacheStatus, hit,
  stale, AccountSnapshot, AccountSnapshotRequest,
}
use krusty_kms.Gateway.Snapshot.Freshness.{cached_snapshot_response-Served, lookup_hit, lookup_old}

-- The quantum that a time lies in.
abbrev pub bucket : ℕ → ℕ
bucket ms = ms / snapshot_time_quantum_ms

quantize_down-bucket : (g g' : ℕ) → bucket g ≡ bucket g' → quantize_down g ≡ quantize_down g'
unfolding quantize_down
quantize_down-bucket g g' h = omega arith

-- The fields of a snapshot other than its metadata.
abbrev Content : Type 0
Content =
    FeltHex × Option FeltHex × DeploymentState × List TokenBalanceSnapshot × SnapshotBlockMetadata

abbrev pub content : AccountSnapshot → Content
content s = (s.address, s.nonce, s.deployment, s.balances, s.block)

abbrev with_metadata : CacheMetadata → Content → AccountSnapshot
with_metadata cache (address, nonce, deployment, balances, block) = record {
  address = address;
  deployment = deployment;
  nonce = nonce;
  balances = balances;
  block = block;
  cache = cache;
}

apply-bucket :
    (e e' : SnapshotCacheEntry) (status : CacheStatus) (now_ms : ℕ)
    → content e.snapshot ≡ content e'.snapshot
    → bucket e.generated_at_ms ≡ bucket e'.generated_at_ms
    → apply_cache_metadata e.snapshot status e.generated_at_ms now_ms
      ≡ apply_cache_metadata e'.snapshot status e'.generated_at_ms now_ms
unfolding apply_cache_metadata cache_metadata
apply-bucket e e' status now_ms alike same =
    let grid = quantize_down-bucket e.generated_at_ms e'.generated_at_ms same in
    ap₂ with_metadata
      (ap (λ g. record { status = status; generated_at_ms = g; age_ms = quantize_up now_ms - g })
        grid)
      alike

-- Two entries with the same content whose generation times lie in one quantum: responses to the
-- same request at the same time that have the same status are equal, so neither metadata field tells
-- where in the quantum an entry was generated. The time is a `u64`.
pub cached_snapshot_response-blind :
    (request : AccountSnapshotRequest) (e e' : SnapshotCacheEntry) (now_ms : ℕ)
    (s s' : AccountSnapshot)
    → now_ms ≤ u64_max
    → content e.snapshot ≡ content e'.snapshot
    → bucket e.generated_at_ms ≡ bucket e'.generated_at_ms
    → cached_snapshot_response request (some e) now_ms ≡ some s
    → cached_snapshot_response request (some e') now_ms ≡ some s'
    → s.cache.status ≡ s'.cache.status
    → s ≡ s'
cached_snapshot_response-blind request e e' now_ms s s' time alike same h h' status =
    let served = cached_snapshot_response-Served request e now_ms s time h in
    let served' = cached_snapshot_response-Served request e' now_ms s' time h' in
    served.computed
    ∙ ap (λ t. apply_cache_metadata e.snapshot t e.generated_at_ms now_ms) status
    ∙ apply-bucket e e' s'.cache.status now_ms alike same
    ∙ sym served'.computed

-- The request as a background view that asks for `ttl_ms` and the longest stale window.
abbrev pub background_request : AccountSnapshotRequest → ℕ → AccountSnapshotRequest
background_request request ttl_ms = record request {
  mode = background_view;
  cache_policy = record { ttl_ms = ttl_ms; stale_while_revalidate_ms = max_snapshot_stale_ms };
}

-- The status does tell: whenever one entry is younger than another, each at most the longest time to
-- live old, a background request whose `ttl_ms` is the younger one's exact age gets a hit for the
-- younger entry and a stale response for the older, also when both lie in one quantum.
pub status-distinguishes :
    (request : AccountSnapshotRequest) (e e' : SnapshotCacheEntry) (now_ms : ℕ)
    → now_ms - e.generated_at_ms < now_ms - e'.generated_at_ms
    → now_ms - e'.generated_at_ms ≤ max_snapshot_ttl_ms
    → (cached_snapshot_response
          (background_request request (now_ms - e.generated_at_ms))
          (some e)
          now_ms
        ≡ served e hit now_ms)
      × (cached_snapshot_response
            (background_request request (now_ms - e.generated_at_ms))
            (some e')
            now_ms
          ≡ served e' stale now_ms)
unfolding max_cache_age
status-distinguishes request e e' now_ms younger old =
    let asked = background_request request (now_ms - e.generated_at_ms) in
    (
      lookup_hit asked e now_ms (ground arith),
      lookup_old asked e' now_ms (ground arith) ∙ ground arith,
    )
