-- ===== src/Gateway/Cache.antt =====
-- crates/gateway/src/snapshot_cache.rs and `store_snapshot` of crates/gateway/src/snapshot.rs: the
-- shared cache with its keys and its eviction in the order of insertion. A hash map is an
-- association list.
pub mod Bounded
pub mod Storing
use mathlib.Core.Logic.{ite}
use krusty_kms.Prelude.{
  ℕ, List, [], ◌∷◌, ◌++◌, Option, none, some, Bool, true, false, length, leb, if◌then◌else◌,
}
use krusty_kms.Prelude.Assoc
use krusty_kms.Domain.Account.{ChainId, FeltHex}
use krusty_kms.Domain.Runtime.{BlockSelector, TrackedToken, AccountSnapshotRequest, AccountSnapshot}
use krusty_kms.Domain.Runtime
use krusty_kms.Gateway.Snapshot.{SnapshotCacheEntry}

pub data CachedBlockSelector : Type 0 where
  latest pending : CachedBlockSelector
  number : ℕ → CachedBlockSelector
  hash : FeltHex → CachedBlockSelector

abbrev pub cached_block : BlockSelector → CachedBlockSelector
cached_block Runtime.latest = latest
cached_block Runtime.pending = pending
cached_block (Runtime.number n) = number n
cached_block (Runtime.hash h) = hash h

pub record CachedTrackedToken : Type 0 where
  pub symbol : List ℕ
  pub address : FeltHex
  pub decimals : ℕ

abbrev pub cached_token : TrackedToken → CachedTrackedToken
cached_token token = record {
  symbol = token.symbol;
  address = token.address;
  decimals = token.decimals;
}

abbrev pub cached_tokens : List TrackedToken → List CachedTrackedToken
cached_tokens [] = []
cached_tokens (token ∷ tokens) = cached_token token ∷ cached_tokens tokens

pub record SnapshotCacheKey : Type 0 where
  pub chain_id : ChainId
  pub address : FeltHex
  pub block : CachedBlockSelector
  pub tokens : List CachedTrackedToken

unfoldable pub from_request : AccountSnapshotRequest → SnapshotCacheKey
from_request request = record {
  chain_id = request.chain_id;
  address = request.address;
  block = cached_block request.block;
  tokens = cached_tokens request.tokens;
}

pub record SnapshotCache : Type 0 where
  pub entries : List (SnapshotCacheKey × SnapshotCacheEntry)
  pub order : List SnapshotCacheKey

-- `SnapshotCache::default`
abbrev pub empty_cache : SnapshotCache
empty_cache = record { entries = []; order = [] }

-- The default ceiling.
abbrev pub default_snapshot_cache_max_entries : ℕ
default_snapshot_cache_max_entries = 256

module _ (dec : Discrete SnapshotCacheKey) where
  -- The eviction loop: `none` is a run that does not end, since the order is empty and the entries
  -- are still too many.
  unfoldable pub evict_front :
      ℕ
      → List SnapshotCacheKey
      → List (SnapshotCacheKey × SnapshotCacheEntry)
      → Option SnapshotCache
  evict_front max_entries [] entries =
      if leb (length entries) max_entries
      then some (record { entries = entries; order = [] })
      else none
  evict_front max_entries (evicted ∷ order) entries =
      let rest = evict_front max_entries order (Assoc.remove dec evicted entries) in
      if leb (length entries) max_entries
      then some (record { entries = entries; order = evicted ∷ order })
      else rest

  abbrev pub push_key :
      Option SnapshotCacheEntry → List SnapshotCacheKey → SnapshotCacheKey → List SnapshotCacheKey
  push_key none order key = order ++ (key ∷ [])
  push_key (some _) order key = order

  unfoldable pub store_snapshot :
      SnapshotCache → SnapshotCacheKey → AccountSnapshot → ℕ → ℕ → Option SnapshotCache
  store_snapshot cache key snapshot max_entries generated_at_ms =
      evict_front max_entries (push_key (Assoc.lookup dec key cache.entries) cache.order key) (
        Assoc.put dec key (record { generated_at_ms = generated_at_ms; snapshot = snapshot })
          cache.entries)
