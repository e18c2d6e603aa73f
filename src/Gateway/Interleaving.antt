-- ===== src/Gateway/Interleaving.antt =====
-- Concurrent calls of the gateway in crates/gateway: each holds a lock only inside one access to
-- the store of operations or to the snapshot cache, so a run is a sequence of such accesses,
-- whichever calls they belong to.
use krusty_kms.Prelude.{ℕ, ◌+◌, ◌≤◌, ◌<◌, ◌≡◌, refl, sym, ◌∙◌, subst, some, arith}
use krusty_kms.Prelude.Assoc.{some_injective}
use krusty_kms.Gateway.Clock.{u64_max}
use krusty_kms.Domain.Account.{OperationId}
use krusty_kms.Domain.Runtime.{AccountSnapshot, OperationStatus}
use krusty_kms.Gateway.Operations.{OperationStore, insert, get, prune}
use krusty_kms.Gateway.Operations.Retention.{IsValid, get-IsValid}
use krusty_kms.Gateway.Operations.Tracking.{insert-IsValid, insert_revision}
use krusty_kms.Gateway.Cache.{SnapshotCacheKey, SnapshotCache, store_snapshot}
use krusty_kms.Gateway.Cache.Bounded.{IsBounded}
use krusty_kms.Gateway.Cache.Storing.{store_snapshot-Stored}

-- What the locks guard, and the ceiling of the cache.
pub record Shared : Type 0 where
  pub operations : OperationStore
  pub snapshot_cache : SnapshotCache
  pub max_entries : ℕ

module _ (dec : Discrete OperationId) (dec_key : Discrete SnapshotCacheKey) where
  -- One access: a status is written, a status is read, or a snapshot is stored. A lookup in the cache
  -- changes nothing.
  pub data Access (s : Shared) : Shared → Type 0 where
    writes :
        (status : OperationStatus) (now_ms : ℕ)
        → Access s (record s { operations = insert dec s.operations status now_ms })
    reads :
        (id : OperationId) (now_ms : ℕ)
        → Access s (record s { operations = (get dec s.operations id now_ms).1 })
    stores :
        (key : SnapshotCacheKey) (snapshot : AccountSnapshot) (now_ms : ℕ) (cache : SnapshotCache)
        → store_snapshot dec_key s.snapshot_cache key snapshot s.max_entries now_ms ≡ some cache
        → Access s (record s { snapshot_cache = cache })

  -- A run of so many accesses.
  pub data Run (s : Shared) : ℕ → Shared → Type 0 where
    start : Run s 0 s
    then : {n : ℕ} {t u : Shared} → Run s n t → Access t u → Run s (n + 1) u

  -- The stores are well formed, and `n` revisions at most have been used.
  pub record IsSound (n : ℕ) (s : Shared) : Type 0 where
    pub store : IsValid dec s.operations
    pub revisions : s.operations.next_revision ≤ n
    pub cache : IsBounded dec_key s.max_entries s.snapshot_cache
    pub positive : 0 < s.max_entries

  get_revision :
      (store : OperationStore) (id : OperationId) (now_ms : ℕ)
      → (get dec store id now_ms).1.next_revision ≡ store.next_revision
  unfolding get prune
  get_revision store id now_ms = refl

  Access-IsSound :
      {s t : Shared} (n : ℕ) → n < u64_max → Access s t → IsSound n s → IsSound (n + 1) t
  Access-IsSound {s} n h (writes status now_ms) sound =
      let revisions = sound.revisions in
      let room : s.operations.next_revision < u64_max = omega arith in
      record {
        store = insert-IsValid dec s.operations sound.store room status now_ms;
        revisions = omega (arith, insert_revision dec s.operations status now_ms room);
        cache = sound.cache;
        positive = sound.positive;
      }
  Access-IsSound {s} n h (reads id now_ms) sound =
      let revisions = sound.revisions in
      record {
        store = get-IsValid dec s.operations id now_ms sound.store;
        revisions = omega (arith, get_revision s.operations id now_ms);
        cache = sound.cache;
        positive = sound.positive;
      }
  Access-IsSound {s} n h (stores key snapshot now_ms cache e) sound =
      let (after, same, stored) =
        store_snapshot-Stored dec_key s.max_entries s.snapshot_cache key snapshot now_ms
          sound.positive sound.cache in
      let revisions = sound.revisions in
      record {
        store = sound.store;
        revisions = omega arith;
        cache =
            subst (IsBounded dec_key s.max_entries) (some_injective (sym same ∙ e)) stored.valid;
        positive = sound.positive;
      }

  weaken : {s : Shared} (n m : ℕ) → n ≤ m → IsSound n s → IsSound m s
  weaken n m h sound =
      let revisions = sound.revisions in
      record {
        store = sound.store;
        revisions = omega arith;
        cache = sound.cache;
        positive = sound.positive;
      }

  -- The invariant holds after every run, in whichever order the accesses of concurrent calls come:
  -- from sound stores with `n` revisions used, a run of `k` accesses, where `n + k` is at most the
  -- largest `u64`, leads to sound stores with `n + k` revisions used at most.
  pub Run-IsSound :
      {s t : Shared} {k : ℕ} (n : ℕ) → Run s k t → n + k ≤ u64_max → IsSound n s → IsSound (n + k) t
  Run-IsSound n start h sound = weaken n (n + 0) (omega arith) sound
  Run-IsSound n (then {n = k} run access) h sound =
      weaken (n + k + 1) (n + (k + 1)) (omega arith)
        (Access-IsSound (n + k) (omega arith) access (Run-IsSound n run (omega arith) sound))
