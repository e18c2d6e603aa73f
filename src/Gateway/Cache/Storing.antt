-- ===== src/Gateway/Cache/Storing.antt =====
-- `store_snapshot` of crates/gateway/src/snapshot.rs, on every path.
use krusty_kms.Prelude.{
  ℕ, ◌≤◌, ◌<◌, ◌≡◌, ◌≢◌, refl, sym, ◌∙◌, List, [], ◌∷◌, ◌++◌, Option, none, some, length, leb,
  Bool-cases, inl, inr, arith,
}
use krusty_kms.Prelude.Assoc.{
  Option-cases, lookup, remove, Distinct, put-Distinct, lookup-put_self, lookup-cons_self,
  lookup-remove_other, lookup-remove_self, remove-Distinct, length-remove, remove_absent,
}
use krusty_kms.Prelude.Assoc
use krusty_kms.Domain.Runtime.{AccountSnapshot}
use krusty_kms.Gateway.Snapshot.{SnapshotCacheEntry}
use krusty_kms.Gateway.Cache.{
  SnapshotCacheKey, SnapshotCache, empty_cache, evict_front, store_snapshot,
}
use krusty_kms.Gateway.Cache.Bounded.{
  Lists, IsBounded, Stored, length-Lists, Lists-push, Lists-replace, fits, one_over, lookup-cons_ne,
  remove-cons_ne,
}

module _ (dec : Discrete SnapshotCacheKey) where
  pub empty_cache-IsBounded : (max_entries : ℕ) → IsBounded dec max_entries empty_cache
  unfolding Lists Distinct
  empty_cache-IsBounded max_entries = record { distinct = tt; listed = refl; bounded = omega arith }

  module _ (max_entries : ℕ) (key : SnapshotCacheKey) (entry : SnapshotCacheEntry) where
    -- The new cache, and that the loop ends in it.
    abbrev Ends : SnapshotCache → Option SnapshotCache → Type 0
    Ends cache result =
        (after : SnapshotCache) × (result ≡ some after)
        × Stored dec max_entries cache after key entry

    replaces :
        (cache : SnapshotCache) (e : SnapshotCacheEntry)
        → IsBounded dec max_entries cache
        → lookup dec key cache.entries ≡ some e
        → Ends cache
            (evict_front dec max_entries cache.order (Assoc.put dec key entry cache.entries))
    replaces cache e v found =
        let size = length-remove dec key cache.entries e v.distinct found in
        let small : length (Assoc.put dec key entry cache.entries) ≤ max_entries =
          omega (arith, v.bounded, size) in
        (
          record { entries = Assoc.put dec key entry cache.entries; order = cache.order },
          fits dec max_entries cache.order (Assoc.put dec key entry cache.entries) small,
          record {
            valid = record {
              distinct = put-Distinct dec key entry cache.entries v.distinct;
              listed = Lists-replace dec cache.order key entry e cache.entries found v.listed;
              bounded = small;
            };
            present = lookup-put_self dec key entry cache.entries;
            others = λ q other. inl (
                lookup-cons_ne dec q key entry (remove dec key cache.entries) other
                ∙ lookup-remove_other dec key q cache.entries other);
          },
        )

    adds :
        (cache : SnapshotCache)
        → IsBounded dec max_entries cache
        → lookup dec key cache.entries ≡ none
        → length cache.entries < max_entries
        → Ends cache
            (evict_front dec max_entries (cache.order ++ (key ∷ [])) ((key, entry) ∷ cache.entries))
    unfolding Distinct
    adds cache v new room = (
      record { entries = (key, entry) ∷ cache.entries; order = cache.order ++ (key ∷ []) },
      fits dec max_entries _ ((key, entry) ∷ cache.entries) (omega arith),
      record {
        valid = record {
          distinct = (new, v.distinct);
          listed = Lists-push dec cache.order key entry cache.entries new v.listed;
          bounded = omega arith;
        };
        present = lookup-cons_self dec key entry cache.entries;
        others = λ q other. inl (lookup-cons_ne dec q key entry cache.entries other);
      },
    )

    drops :
        (first : SnapshotCacheKey) (rest : List SnapshotCacheKey)
        (l : List (SnapshotCacheKey × SnapshotCacheEntry))
        → IsBounded dec max_entries (record { entries = l; order = first ∷ rest })
        → lookup dec key l ≡ none
        → length l ≡ max_entries
        → Ends
            (record { entries = l; order = first ∷ rest })
            (evict_front dec max_entries ((first ∷ rest) ++ (key ∷ [])) ((key, entry) ∷ l))
    unfolding Distinct Lists
    drops first rest l v new full =
        let ((e, found), listed) = v.listed in
        let other : key ≢ first = λ same. ground (arith, new, found, same) in
        let size = length-remove dec first l e v.distinct found in
        let shorter = remove-cons_ne dec first key entry l other in
        let small : length (remove dec first ((key, entry) ∷ l)) ≤ max_entries =
          ground (arith, shorter, size, full) in
        (
          record { entries = remove dec first ((key, entry) ∷ l); order = rest ++ (key ∷ []) },
          one_over dec max_entries first (rest ++ (key ∷ [])) ((key, entry) ∷ l) (omega arith)
              small,
          record {
            valid = record {
              distinct = remove-Distinct dec first ((key, entry) ∷ l) (new, v.distinct);
              listed = (Lists-push dec (first ∷ rest) key entry l new v.listed).1;
              bounded = small;
            };
            present =
                lookup-remove_other dec first key ((key, entry) ∷ l) (λ same. other (sym same))
                ∙ lookup-cons_self dec key entry l;
            others = λ q different. elim (dec first q) [
              | yes p ↦
                  inr
                    (rw (← p) (lookup-remove_self dec first ((key, entry) ∷ l)), (rest, rw p refl))
              | no p ↦ inl (
                  lookup-remove_other dec first q ((key, entry) ∷ l) p
                  ∙ lookup-cons_ne dec q key entry l different)
            ];
          },
        )

    adds_new :
        (order : List SnapshotCacheKey) (l : List (SnapshotCacheKey × SnapshotCacheEntry))
        → 0 < max_entries
        → IsBounded dec max_entries (record { entries = l; order = order })
        → lookup dec key l ≡ none
        → Ends
            (record { entries = l; order = order })
            (evict_front dec max_entries (order ++ (key ∷ [])) ((key, entry) ∷ l))
    adds_new [] l positive v new =
        let size = length-Lists dec [] l v.distinct v.listed in
        adds (record { entries = l; order = [] }) v new (omega (arith, size))
    adds_new (first ∷ rest) l positive v new = elim (Bool-cases (leb max_entries (length l))) [
      | inl full ↦ let bounded = v.bounded in drops first rest l v new (ground arith)
      | inr room ↦ adds (record { entries = l; order = first ∷ rest }) v new (ground arith)
    ]

  -- On a well-formed cache with a positive ceiling, storing ends, keeps the cache well formed and
  -- within the ceiling, and the new entry is there under its key. Any other key has the entry it had,
  -- unless it was stored first of all and made room for a new key.
  pub store_snapshot-Stored :
      (max_entries : ℕ) (cache : SnapshotCache) (key : SnapshotCacheKey)
      (snapshot : AccountSnapshot) (generated_at_ms : ℕ)
      → 0 < max_entries
      → IsBounded dec max_entries cache
      → (after : SnapshotCache) × (store_snapshot dec cache key snapshot max_entries generated_at_ms
          ≡ some after)
        × Stored dec max_entries cache after key
            (record { generated_at_ms = generated_at_ms; snapshot = snapshot })
  unfolding store_snapshot
  store_snapshot-Stored max_entries cache key snapshot generated_at_ms positive v =
      let entry : SnapshotCacheEntry = record {
        generated_at_ms = generated_at_ms;
        snapshot = snapshot;
      } in
      elim (Option-cases (lookup dec key cache.entries)) [
        | inl new ↦
            rw (new, remove_absent dec key cache.entries new)
              (adds_new max_entries key entry cache.order cache.entries positive v new)
        | inr (e, found) ↦ rw found (replaces max_entries key entry cache e v found)
      ]
