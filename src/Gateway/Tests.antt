-- ===== src/Gateway/Tests.antt =====
-- The clock and the snapshot cache at concrete times.
mod Accounts
mod Requests
mod Stores
use krusty_kms.Prelude.{ℕ, ◌≡◌, refl, List, [], ◌∷◌, none, some, arith}
use krusty_kms.Gateway.Clock.{Sample, readings}
use krusty_kms.Gateway.Clock.Monotonic.{Advancing, clock-Advancing}
use krusty_kms.Gateway.Snapshot.{
  cached_snapshot_response, stale_snapshot_fallback, SnapshotCacheEntry, served,
  apply_cache_metadata, cache_metadata, quantize_down, quantize_up,
}
use krusty_kms.Domain.Account.{mainnet, undeployed}
use krusty_kms.Domain.Runtime.{
  AccountSnapshotRequest, active_view, latest, CacheMetadata, hit, stale, miss, AccountSnapshot,
}
use krusty_kms.Gateway.Snapshot.Freshness.{
  Served, cached_snapshot_response-Served, stale_snapshot_fallback-cached_snapshot_response,
}
use krusty_kms.Gateway.Snapshot.Blindness.{
  background_request, cached_snapshot_response-blind, status-distinguishes,
}

-- The wall clock steps back between the first two samples, and forward before the third.
abbrev samples : List Sample
samples =
    record { wall = some 5_000_000_000; instant = 1_000_000 }
    ∷ record { wall = some 1_000_000_000; instant = 3_000_000 }
    ∷ record { wall = some 9_000_000_000; instant = 4_000_000 }
    ∷ []

clock-Advancing_example : Advancing 0 (readings none samples) samples
clock-Advancing_example = clock-Advancing samples (omega arith, (omega arith, (omega arith, tt)))

abbrev request : AccountSnapshotRequest
request = record {
  chain_id = mainnet;
  address = 42;
  tokens = [];
  block = latest;
  mode = active_view;
  cache_policy = record { ttl_ms = 1; stale_while_revalidate_ms = 0 };
}

abbrev snapshot_with : CacheMetadata → AccountSnapshot
snapshot_with cache = record {
  address = 42;
  deployment = undeployed;
  nonce = none;
  balances = [];
  block = record { selector = latest; block_hash = none; block_number = none };
  cache = cache;
}

abbrev entry_at : ℕ → SnapshotCacheEntry
entry_at generated_at_ms = record {
  generated_at_ms = generated_at_ms;
  snapshot = snapshot_with (record { status = miss; generated_at_ms = 0; age_ms = 0 });
}

abbrev response_at : ℕ → AccountSnapshot
response_at now_ms =
    snapshot_with (record { status = hit; generated_at_ms = 20_000; age_ms = 5_000 })

first_hits :
    cached_snapshot_response (background_request request 3_000) (some (entry_at 21_000)) 23_000
    ≡ some (response_at 23_000)
unfolding cached_snapshot_response apply_cache_metadata cache_metadata quantize_down quantize_up
first_hits = refl

second_hits :
    cached_snapshot_response (background_request request 3_000) (some (entry_at 22_999)) 23_000
    ≡ some (response_at 23_000)
unfolding cached_snapshot_response apply_cache_metadata cache_metadata quantize_down quantize_up
second_hits = refl

cached_snapshot_response-Served_example :
    Served (background_request request 3_000) (entry_at 21_000) 23_000 (response_at 23_000)
cached_snapshot_response-Served_example =
    cached_snapshot_response-Served (background_request request 3_000) (entry_at 21_000) 23_000
      (response_at 23_000) (omega arith) first_hits

-- An entry that is 2 ms old at 5001 ms, and whose shown age is 10000 ms.
over_stated :
    cached_snapshot_response (background_request request 3_000) (some (entry_at 4_999)) 5_001
    ≡ some (snapshot_with (record { status = hit; generated_at_ms = 0; age_ms = 10_000 }))
unfolding cached_snapshot_response apply_cache_metadata cache_metadata quantize_down quantize_up
over_stated = refl
