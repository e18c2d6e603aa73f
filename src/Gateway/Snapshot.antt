-- ===== src/Gateway/Snapshot.antt =====
-- crates/gateway/src/snapshot_cache.rs: what the shared snapshot cache serves, and the metadata that
-- it shows.
pub mod Freshness
pub mod Blindness
use krusty_kms.Prelude.{
  ℕ, ◌+◌, ◌-◌, ◌*◌, ◌%◌, Bool, true, false, Option, none, some, ltb, leb, ◌==◌, min, if◌then◌else◌,
  ◌&&◌,
}
use krusty_kms.Gateway.Clock.{saturating_add}
use krusty_kms.Domain.Runtime.{
  QueryMode, active_view, background_view, CachePolicy, CacheStatus, hit, stale, CacheMetadata,
  AccountSnapshotRequest, AccountSnapshot,
}

abbrev pub max_snapshot_ttl_ms : ℕ
max_snapshot_ttl_ms = 60 * 60 * 1000

abbrev pub max_snapshot_stale_ms : ℕ
max_snapshot_stale_ms = 24 * 60 * 60 * 1000

abbrev pub snapshot_time_quantum_ms : ℕ
snapshot_time_quantum_ms = 5_000

unfoldable pub max_cache_age : CachePolicy → ℕ
max_cache_age policy =
    saturating_add (min policy.ttl_ms max_snapshot_ttl_ms)
      (min policy.stale_while_revalidate_ms max_snapshot_stale_ms)

unfoldable pub quantize_down : ℕ → ℕ
quantize_down value_ms = value_ms - value_ms % snapshot_time_quantum_ms

unfoldable pub quantize_up : ℕ → ℕ
quantize_up value_ms =
    let rem = value_ms % snapshot_time_quantum_ms in
    if rem == 0 then value_ms else saturating_add value_ms (snapshot_time_quantum_ms - rem)

-- What `apply_cache_metadata` writes.
unfoldable pub cache_metadata : CacheStatus → ℕ → ℕ → CacheMetadata
cache_metadata status generated_at_ms now_ms = record {
  status = status;
  generated_at_ms = quantize_down generated_at_ms;
  age_ms = quantize_up now_ms - quantize_down generated_at_ms;
}

abbrev pub is_background : QueryMode → Bool
is_background background_view = true
is_background active_view = false

pub record SnapshotCacheEntry : Type 0 where
  pub generated_at_ms : ℕ
  pub snapshot : AccountSnapshot

unfoldable pub apply_cache_metadata : AccountSnapshot → CacheStatus → ℕ → ℕ → AccountSnapshot
apply_cache_metadata snapshot status generated_at_ms now_ms = record snapshot {
  cache = cache_metadata status generated_at_ms now_ms;
}

abbrev pub served : SnapshotCacheEntry → CacheStatus → ℕ → Option AccountSnapshot
served entry status now_ms =
    some (apply_cache_metadata entry.snapshot status entry.generated_at_ms now_ms)

unfoldable pub cached_snapshot_response :
    AccountSnapshotRequest → Option SnapshotCacheEntry → ℕ → Option AccountSnapshot
cached_snapshot_response request none now_ms = none
cached_snapshot_response request (some entry) now_ms =
    let age_ms = now_ms - entry.generated_at_ms in
    if leb age_ms (min request.cache_policy.ttl_ms max_snapshot_ttl_ms)
    then served entry hit now_ms
    else if leb age_ms (max_cache_age request.cache_policy) && is_background request.mode
    then served entry stale now_ms
    else none

unfoldable pub stale_snapshot_fallback :
    AccountSnapshotRequest → Option SnapshotCacheEntry → ℕ → Option AccountSnapshot
stale_snapshot_fallback request none now_ms = none
stale_snapshot_fallback request (some entry) now_ms =
    let age_ms = now_ms - entry.generated_at_ms in
    if leb age_ms (max_cache_age request.cache_policy) then served entry stale now_ms else none
