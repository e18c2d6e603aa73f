-- ===== src/Gateway/Tests/Stores.antt =====
-- The store of operations and the snapshot cache with a few entries.
use native.Mathlib.Decide.{ℕ_discrete}
use krusty_kms.Prelude.{ℕ, ◌≡◌, refl, List, [], ◌∷◌, none, some, arith}
use krusty_kms.Prelude.Assoc.{lookup, remove, Distinct, take_front}
use krusty_kms.Domain.Account.{OperationId, undeployed}
use krusty_kms.Domain.Runtime.{
  OperationStatus, OperationState, completed, expired, running, sign, AccountSnapshot, latest, miss,
}
use krusty_kms.Gateway.Operations.{
  OperationRetentionPolicy, OperationEntry, new, ages, insert_by_age, sort_by_age, remove_each,
  evict, get, insert,
}
use krusty_kms.Gateway.Operations.Oldest.{Newest, evict-Newest}
use krusty_kms.Gateway.Operations.Retention.{IsValid, new-IsValid}
use krusty_kms.Gateway.Operations.Tracking.{get-insert}
use krusty_kms.Gateway.Cache.{SnapshotCache, empty_cache, from_request, store_snapshot}
use krusty_kms.Gateway.Cache.Bounded.{Stored}
use krusty_kms.Gateway.Cache.Storing.{empty_cache-IsBounded, store_snapshot-Stored}
use krusty_kms.Gateway.Interleaving.{Shared, start, then, writes, reads, IsSound, Run-IsSound}
use krusty_kms.Gateway.Tests.Requests.{list_discrete, id_discrete, key_discrete, snapshot_request}

abbrev policy : OperationRetentionPolicy
policy = record { ttl_ms = 1_000; max_entries = 2 }

abbrev status_of : ℕ → OperationState → OperationStatus
status_of id state = record { id = id ∷ []; kind = sign; state = state; provenance = none }

abbrev entry_of : ℕ → OperationState → ℕ → OperationEntry
entry_of id state revision = record {
  status = status_of id state;
  updated_at_ms = 0;
  revision = revision;
}

-- The oldest entry is active, and the newest has expired.
abbrev three : List (OperationId × OperationEntry)
three =
    (3 ∷ [], entry_of 3 expired 3)
    ∷ (1 ∷ [], entry_of 1 running 1)
    ∷ (2 ∷ [], entry_of 2 completed 2)
    ∷ []

evicts :
    evict id_discrete 2 three
    ≡ (1 ∷ [], entry_of 1 running 1) ∷ (2 ∷ [], entry_of 2 completed 2) ∷ []
unfolding evict ages sort_by_age insert_by_age remove_each take_front remove id_discrete
    list_discrete ℕ_discrete
evicts = refl

three-Distinct : Distinct id_discrete three
unfolding Distinct lookup id_discrete list_discrete ℕ_discrete
three-Distinct = (refl, (refl, (refl, tt)))

evict-Newest_example : Newest id_discrete 2 three (evict id_discrete 2 three)
evict-Newest_example = evict-Newest id_discrete 2 three three-Distinct

new_store-IsValid : IsValid id_discrete (new policy)
new_store-IsValid = new-IsValid id_discrete policy (omega arith)

get-insert_example :
    (get id_discrete (insert id_discrete (new policy) (status_of 1 running) 500) (1 ∷ []) 2_000).0
    ≡ some (status_of 1 expired)
unfolding new
get-insert_example =
    get-insert id_discrete (new policy) (status_of 1 running) 500 2_000 new_store-IsValid
      (omega arith) refl

abbrev snapshot : AccountSnapshot
snapshot = record {
  address = 42;
  deployment = undeployed;
  nonce = none;
  balances = [];
  block = record { selector = latest; block_hash = none; block_number = none };
  cache = record { status = miss; generated_at_ms = 0; age_ms = 0 };
}

store_snapshot-Stored_example :
    (after : SnapshotCache) × (store_snapshot key_discrete empty_cache
        (from_request snapshot_request)
        snapshot
        1
        700
      ≡ some after)
    × Stored key_discrete 1 empty_cache after
        (from_request snapshot_request)
        (record { generated_at_ms = 700; snapshot = snapshot })
store_snapshot-Stored_example =
    store_snapshot-Stored key_discrete 1 empty_cache (from_request snapshot_request) snapshot 700
      (omega arith) (empty_cache-IsBounded key_discrete 1)

abbrev shared : Shared
shared = record { operations = new policy; snapshot_cache = empty_cache; max_entries = 1 }

shared-IsSound : IsSound id_discrete key_discrete 1 shared
unfolding new
shared-IsSound = record {
  store = new_store-IsValid;
  revisions = omega arith;
  cache = empty_cache-IsBounded key_discrete 1;
  positive = omega arith;
}

abbrev written : Shared
written = record shared { operations = insert id_discrete (new policy) (status_of 1 running) 500 }

abbrev read : Shared
read = record written { operations = (get id_discrete written.operations (1 ∷ []) 2_000).1 }

Run-IsSound_example : IsSound id_discrete key_discrete 3 read
Run-IsSound_example =
    Run-IsSound id_discrete key_discrete 1
      (then (then start (writes (status_of 1 running) 500)) (reads (1 ∷ []) 2_000)) (omega arith)
      shared-IsSound
