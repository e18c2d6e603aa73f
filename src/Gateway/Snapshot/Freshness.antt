-- ===== src/Gateway/Snapshot/Freshness.antt =====
-- The age of an entry that crates/gateway/src/snapshot_cache.rs serves, and the age that it shows.
use krusty_kms.Prelude.{
  ℕ, ◌+◌, ◌-◌, ◌*◌, ◌%◌, ◌≤◌, ◌<◌, ◌≡◌, refl, sym, ◌∙◌, subst, Option, none, some, min, leb, Bool,
  true, false, ◌&&◌, Bool-cases, inl, inr, ◌⊎◌, arith, if◌then◌else◌,
}
use krusty_kms.Prelude.Assoc.{some_injective}
use krusty_kms.Gateway.Clock.{u64_max}
use krusty_kms.Gateway.Snapshot.{
  max_snapshot_ttl_ms, max_snapshot_stale_ms, snapshot_time_quantum_ms, max_cache_age,
  quantize_down, quantize_up, cache_metadata, SnapshotCacheEntry, apply_cache_metadata,
  is_background, served, cached_snapshot_response, stale_snapshot_fallback,
}
use krusty_kms.Domain.Runtime.{
  QueryMode, background_view, active_view, CachePolicy, CacheStatus, hit, stale, CacheMetadata,
  AccountSnapshot, AccountSnapshotRequest,
}

-- The metadata shown for an entry: the generation time rounded down to the quantum, and an age that
-- is never below the true one and above it by less than two quanta.
pub record ShownFor (generated_at_ms now_ms : ℕ) (m : CacheMetadata) : Type 0 where
  pub earlier : m.generated_at_ms ≤ generated_at_ms
  pub close : generated_at_ms < m.generated_at_ms + snapshot_time_quantum_ms
  pub on_grid : m.generated_at_ms % snapshot_time_quantum_ms ≡ 0
  pub not_younger : now_ms - generated_at_ms ≤ m.age_ms
  pub not_much_older : m.age_ms < (now_ms - generated_at_ms) + 2 * snapshot_time_quantum_ms

cache_metadata-ShownFor :
    (status : CacheStatus) (generated_at_ms now_ms : ℕ)
    → now_ms ≤ u64_max
    → ShownFor generated_at_ms now_ms (cache_metadata status generated_at_ms now_ms)
unfolding cache_metadata quantize_down quantize_up
cache_metadata-ShownFor status generated_at_ms now_ms h = record {
  earlier = omega arith;
  close = omega arith;
  on_grid = omega arith;
  not_younger = ground arith;
  not_much_older = ground arith;
}

le_of_leb : {a b : ℕ} → leb a b ≡ true → a ≤ b
le_of_leb h = ground arith

lt_of_leb : {a b : ℕ} → leb a b ≡ false → b < a
lt_of_leb h = ground arith

and_true : {a b : Bool} → (a && b) ≡ true → (a ≡ true) × (b ≡ true)
and_true h = (ground arith, ground arith)

if_some_else :
    {A : Type 0} (b : Bool) {o : Option A} {v : A}
    → (if b then o else none) ≡ some v
    → (b ≡ true) × (o ≡ some v)
if_some_else true h = (refl, h)
if_some_else false h = cc

-- No policy serves an entry older than this.
abbrev pub oldest_served_ms : ℕ
oldest_served_ms = max_snapshot_ttl_ms + max_snapshot_stale_ms

max_cache_age-le : (policy : CachePolicy) → max_cache_age policy ≤ oldest_served_ms
unfolding max_cache_age
max_cache_age-le policy = ground arith

ttl-le : (policy : CachePolicy) → min policy.ttl_ms max_snapshot_ttl_ms ≤ max_cache_age policy
unfolding max_cache_age
ttl-le policy = ground arith

-- The windows that a status stands for: within the time to live, or, for a background view, past
-- it and within the stale window.
abbrev pub InWindow : AccountSnapshotRequest → ℕ → CacheStatus → Type 0
InWindow request age status =
    ((status ≡ hit) × (age ≤ min request.cache_policy.ttl_ms max_snapshot_ttl_ms))
    ⊎ ((status ≡ stale)
        × (min request.cache_policy.ttl_ms max_snapshot_ttl_ms < age)
        × (age ≤ max_cache_age request.cache_policy)
        × (request.mode ≡ background_view))

pub record Served (request : AccountSnapshotRequest) (entry : SnapshotCacheEntry) (now_ms : ℕ)
    (s : AccountSnapshot) : Type 0 where
  pub exact : s ≡ record entry.snapshot { cache = s.cache }
  pub computed : s ≡ apply_cache_metadata entry.snapshot s.cache.status entry.generated_at_ms now_ms
  pub shown : ShownFor entry.generated_at_ms now_ms s.cache
  pub window : InWindow request (now_ms - entry.generated_at_ms) s.cache.status
  pub bounded : now_ms - entry.generated_at_ms ≤ oldest_served_ms

is_background-eq : (mode : QueryMode) → is_background mode ≡ true → mode ≡ background_view
is_background-eq background_view h = refl
is_background-eq active_view h = cc

apply_cache_metadata-Served :
    (request : AccountSnapshotRequest) (entry : SnapshotCacheEntry) (now_ms : ℕ)
    (status : CacheStatus)
    → now_ms ≤ u64_max
    → InWindow request (now_ms - entry.generated_at_ms) status
    → now_ms - entry.generated_at_ms ≤ max_cache_age request.cache_policy
    → Served request entry now_ms
        (apply_cache_metadata entry.snapshot status entry.generated_at_ms now_ms)
unfolding apply_cache_metadata cache_metadata
apply_cache_metadata-Served request entry now_ms status h window age = record {
  exact = refl;
  computed = refl;
  shown = cache_metadata-ShownFor status entry.generated_at_ms now_ms h;
  window = window;
  bounded = omega (arith, age, max_cache_age-le request.cache_policy);
}

pub lookup_hit :
    (request : AccountSnapshotRequest) (entry : SnapshotCacheEntry) (now_ms : ℕ)
    → now_ms - entry.generated_at_ms ≤ min request.cache_policy.ttl_ms max_snapshot_ttl_ms
    → cached_snapshot_response request (some entry) now_ms ≡ served entry hit now_ms
unfolding cached_snapshot_response
lookup_hit request entry now_ms h = ground arith

pub lookup_old :
    (request : AccountSnapshotRequest) (entry : SnapshotCacheEntry) (now_ms : ℕ)
    → min request.cache_policy.ttl_ms max_snapshot_ttl_ms < now_ms - entry.generated_at_ms
    → cached_snapshot_response request (some entry) now_ms ≡ (
        if leb (now_ms - entry.generated_at_ms) (max_cache_age request.cache_policy)
          && is_background request.mode
        then served entry stale now_ms
        else none)
unfolding cached_snapshot_response
lookup_old request entry now_ms h = ground arith

hit-Served :
    (request : AccountSnapshotRequest) (entry : SnapshotCacheEntry) (now_ms : ℕ)
    (s : AccountSnapshot)
    → now_ms ≤ u64_max
    → cached_snapshot_response request (some entry) now_ms ≡ some s
    → now_ms - entry.generated_at_ms ≤ min request.cache_policy.ttl_ms max_snapshot_ttl_ms
    → Served request entry now_ms s
hit-Served request entry now_ms s h e young =
    subst (Served request entry now_ms)
      (some_injective (sym (lookup_hit request entry now_ms young) ∙ e))
      (apply_cache_metadata-Served request entry now_ms hit h (inl (refl, young))
        (omega (arith, ttl-le request.cache_policy, young)))

stale-Served :
    (request : AccountSnapshotRequest) (entry : SnapshotCacheEntry) (now_ms : ℕ)
    (s : AccountSnapshot)
    → now_ms ≤ u64_max
    → cached_snapshot_response request (some entry) now_ms ≡ some s
    → min request.cache_policy.ttl_ms max_snapshot_ttl_ms < now_ms - entry.generated_at_ms
    → Served request entry now_ms s
stale-Served request entry now_ms s h e old =
    let (test, same) = if_some_else _ (sym (lookup_old request entry now_ms old) ∙ e) in
    let (in_window, background) = and_true test in
    let age = le_of_leb in_window in
    subst (Served request entry now_ms) (some_injective same) (
      apply_cache_metadata-Served request entry now_ms stale h
        (inr (refl, old, age, is_background-eq request.mode background)) age)

-- Every snapshot that the cache serves has the entry's content in every field but the metadata, a
-- generation time on the grid that is the entry's rounded down, an age that is never below the true
-- one and above it by less than two quanta, the status of the window that the entry's exact age is
-- in, and an age that the server's own ceilings bound, whatever the caller's policy. The time is a
-- `u64`.
pub cached_snapshot_response-Served :
    (request : AccountSnapshotRequest) (entry : SnapshotCacheEntry) (now_ms : ℕ)
    (s : AccountSnapshot)
    → now_ms ≤ u64_max
    → cached_snapshot_response request (some entry) now_ms ≡ some s
    → Served request entry now_ms s
cached_snapshot_response-Served request entry now_ms s h e =
    elim (Bool-cases (
      leb (now_ms - entry.generated_at_ms) (min request.cache_policy.ttl_ms max_snapshot_ttl_ms))) [
        | inl young ↦ hit-Served request entry now_ms s h e (le_of_leb young)
        | inr old ↦ stale-Served request entry now_ms s h e (lt_of_leb old)
      ]

fallback_in_window :
    (request : AccountSnapshotRequest) (entry : SnapshotCacheEntry) (now_ms : ℕ)
    → now_ms - entry.generated_at_ms ≤ max_cache_age request.cache_policy
    → stale_snapshot_fallback request (some entry) now_ms ≡ served entry stale now_ms
unfolding stale_snapshot_fallback
fallback_in_window request entry now_ms h = ground arith

window-age :
    (request : AccountSnapshotRequest) (age : ℕ) (status : CacheStatus)
    → InWindow request age status
    → age ≤ max_cache_age request.cache_policy
window-age request age status (inl (_, young)) = omega (arith, young, ttl-le request.cache_policy)
window-age request age status (inr (_, _, in_window, _)) = in_window

-- An entry that a lookup serves, as a hit or stale, is also served, as stale, by the fallback for the
-- same request at the same time. The time is a `u64`.
pub stale_snapshot_fallback-cached_snapshot_response :
    (request : AccountSnapshotRequest) (entry : SnapshotCacheEntry) (now_ms : ℕ)
    (s : AccountSnapshot)
    → now_ms ≤ u64_max
    → cached_snapshot_response request (some entry) now_ms ≡ some s
    → stale_snapshot_fallback request (some entry) now_ms ≡ served entry stale now_ms
stale_snapshot_fallback-cached_snapshot_response request entry now_ms s h e =
    let serving = cached_snapshot_response-Served request entry now_ms s h e in
    fallback_in_window request entry now_ms (window-age request _ s.cache.status serving.window)
