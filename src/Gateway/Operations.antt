-- ===== src/Gateway/Operations.antt =====
-- crates/gateway/src/operations.rs, and the retention policy of crates/gateway/src/types.rs. The
-- entries, a hash map, are an association list. `sort_unstable_by_key` is insertion sort on the same
-- key, with no two entries of one revision before `next_revision` saturates.
pub mod Eviction
pub mod Oldest
pub mod Retention
pub mod Tracking
use mathlib.Core.Logic.{ite}
use krusty_kms.Prelude.{
  ℕ, ◌+◌, ◌-◌, ◌*◌, List, [], ◌∷◌, Option, none, some, Bool, true, false, not, ◌&&◌, ◌||◌, length,
  ltb, leb, ◌==◌, if◌then◌else◌,
}
use mathlib.Core.Option
use krusty_kms.Prelude.Assoc
use krusty_kms.Prelude.Assoc.{take_front}
use krusty_kms.Gateway.Clock.{saturating_add}
use krusty_kms.Domain.Error.{Fallible, returns, check, ◌>>◌}
use krusty_kms.Domain.Account.{OperationId}
use krusty_kms.Domain.Runtime.{OperationState, OperationStatus, expired}

pub record OperationRetentionPolicy : Type 0 where
  pub ttl_ms : ℕ
  pub max_entries : ℕ

pub data OperationRetentionError : Type 0 where
  zero_ttl zero_max_entries : OperationRetentionError

-- `OperationRetentionPolicy::new`
unfoldable pub retention_policy : ℕ → ℕ → Fallible OperationRetentionError OperationRetentionPolicy
retention_policy ttl_ms max_entries = do
  check (not (ttl_ms == 0)) zero_ttl
  check (not (max_entries == 0)) zero_max_entries
  returns (record { ttl_ms = ttl_ms; max_entries = max_entries })

-- The default policy.
abbrev pub default_retention : OperationRetentionPolicy
default_retention = record { ttl_ms = 24 * 60 * 60 * 1000; max_entries = 1_024 }

pub record OperationEntry : Type 0 where
  pub status : OperationStatus
  pub updated_at_ms : ℕ
  pub revision : ℕ

pub record OperationStore : Type 0 where
  pub retention : OperationRetentionPolicy
  pub entries : List (OperationId × OperationEntry)
  pub next_revision : ℕ

unfoldable pub new : OperationRetentionPolicy → OperationStore
new retention = record { retention = retention; entries = []; next_revision = 1 }

abbrev pub is_expired : OperationState → Bool
is_expired expired = true
is_expired _ = false

unfoldable pub expire : ℕ → ℕ → OperationEntry → OperationEntry
expire ttl_ms now_ms entry =
    if is_expired entry.status.state
    then entry
    else if ltb ttl_ms (now_ms - entry.updated_at_ms)
    then record entry { status = record entry.status { state = expired } }
    else entry

unfoldable pub expire_all :
    ℕ → ℕ → List (OperationId × OperationEntry) → List (OperationId × OperationEntry)
expire_all ttl_ms now_ms [] = []
expire_all ttl_ms now_ms ((id, entry) ∷ entries) =
    (id, expire ttl_ms now_ms entry) ∷ expire_all ttl_ms now_ms entries

-- The sort key: whether the entry is active, and its revision.
abbrev pub Age : Type 0
Age = Bool × ℕ

abbrev pub age_of : OperationEntry → Age
age_of entry = (not (is_expired entry.status.state), entry.revision)

-- The order of keys, `false` before `true`.
abbrev pub age_leb : Age → Age → Bool
age_leb (false, r) (false, s) = leb r s
age_leb (false, r) (true, s) = true
age_leb (true, r) (false, s) = false
age_leb (true, r) (true, s) = leb r s

unfoldable pub ages : List (OperationId × OperationEntry) → List (OperationId × Age)
ages [] = []
ages ((id, entry) ∷ entries) = (id, age_of entry) ∷ ages entries

unfoldable pub insert_by_age :
    OperationId × Age → List (OperationId × Age) → List (OperationId × Age)
insert_by_age e [] = e ∷ []
insert_by_age e (f ∷ l) =
    let rest = insert_by_age e l in if age_leb e.1 f.1 then e ∷ f ∷ l else f ∷ rest

unfoldable pub sort_by_age : List (OperationId × Age) → List (OperationId × Age)
sort_by_age [] = []
sort_by_age (e ∷ l) = insert_by_age e (sort_by_age l)

module _ (dec : Discrete OperationId) where
  unfoldable pub remove_each :
      List (OperationId × Age)
      → List (OperationId × OperationEntry)
      → List (OperationId × OperationEntry)
  remove_each [] entries = entries
  remove_each ((id, _) ∷ victims) entries = remove_each victims (Assoc.remove dec id entries)

  -- The oldest entries, expired ones first, go while there are more than `max_entries`.
  unfoldable pub evict :
      ℕ → List (OperationId × OperationEntry) → List (OperationId × OperationEntry)
  evict max_entries entries =
      if leb (length entries) max_entries
      then entries
      else remove_each (take_front (length entries - max_entries) (sort_by_age (ages entries)))
          entries

  unfoldable pub prune : OperationStore → ℕ → OperationStore
  prune store now_ms = record store {
    entries =
        evict store.retention.max_entries (expire_all store.retention.ttl_ms now_ms store.entries);
  }

  unfoldable pub get : OperationStore → OperationId → ℕ → Option OperationStatus × OperationStore
  get store id now_ms =
      let pruned = prune store now_ms in
      (Option.map (λ entry. entry.status) (Assoc.lookup dec id pruned.entries), pruned)

  unfoldable pub insert : OperationStore → OperationStatus → ℕ → OperationStore
  insert store status now_ms =
      prune
        (record store {
          next_revision = saturating_add store.next_revision 1;
          entries =
              Assoc.put dec status.id
                (record { status = status; updated_at_ms = now_ms; revision = store.next_revision })
                store.entries;
        })
        now_ms
