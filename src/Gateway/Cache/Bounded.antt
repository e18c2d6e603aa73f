-- ===== src/Gateway/Cache/Bounded.antt =====
-- The size of the snapshot cache, and what storing into it leaves there:
-- crates/gateway/src/snapshot.rs, `store_snapshot`.
use krusty_kms.Prelude.{
  ℕ, ◌≤◌, ◌<◌, ◌≡◌, ◌≢◌, refl, sym, ◌∙◌, ap, subst, List, [], ◌∷◌, ◌++◌, none, some, length, ◌⊎◌,
  arith,
}
use krusty_kms.Prelude.Assoc.{
  lookup, remove, Distinct, lookup-put_self, lookup-remove_other, lookup-remove_self,
  lookup-remove-none, remove-Distinct, length-remove, remove_absent,
}
use krusty_kms.Gateway.Snapshot.{SnapshotCacheEntry}
use krusty_kms.Gateway.Cache.{SnapshotCacheKey, SnapshotCache, evict_front}

module _ (dec : Discrete SnapshotCacheKey) where
  -- The order lists the keys of the entries, each once.
  unfoldable pub Lists :
      List SnapshotCacheKey → List (SnapshotCacheKey × SnapshotCacheEntry) → Type 0
  Lists [] l = l ≡ []
  Lists (k ∷ order) l =
      ((e : SnapshotCacheEntry) × (lookup dec k l ≡ some e)) × Lists order (remove dec k l)

  -- The invariant of a cache with a ceiling.
  pub record IsBounded (max_entries : ℕ) (cache : SnapshotCache) : Type 0 where
    pub distinct : Distinct dec cache.entries
    pub listed : Lists cache.order cache.entries
    pub bounded : length cache.entries ≤ max_entries

  pub length-Lists :
      (order : List SnapshotCacheKey) (l : List (SnapshotCacheKey × SnapshotCacheEntry))
      → Distinct dec l
      → Lists order l
      → length order ≡ length l
  unfolding Lists
  length-Lists [] l d h = rw h refl
  length-Lists (k ∷ order) l d ((e, found), h) = omega (
    arith,
    length-Lists order (remove dec k l) (remove-Distinct dec k l d) h,
    length-remove dec k l e d found,
  )

  remove-remove :
      (j k : SnapshotCacheKey) (l : List (SnapshotCacheKey × SnapshotCacheEntry))
      → remove dec j (remove dec k l) ≡ remove dec k (remove dec j l)
  unfolding remove
  remove-remove j k [] = refl
  remove-remove j k (e ∷ l) = ground (arith, remove-remove j k l)

  pub remove-cons_ne :
      (j k : SnapshotCacheKey) (v : SnapshotCacheEntry)
      (l : List (SnapshotCacheKey × SnapshotCacheEntry))
      → k ≢ j
      → remove dec j ((k, v) ∷ l) ≡ (k, v) ∷ remove dec j l
  unfolding remove
  remove-cons_ne j k v l h = ground arith

  remove-cons_self :
      (k : SnapshotCacheKey) (v : SnapshotCacheEntry)
      (l : List (SnapshotCacheKey × SnapshotCacheEntry))
      → remove dec k ((k, v) ∷ l) ≡ remove dec k l
  unfolding remove
  remove-cons_self k v l = ground arith

  pub lookup-cons_ne :
      (j k : SnapshotCacheKey) (v : SnapshotCacheEntry)
      (l : List (SnapshotCacheKey × SnapshotCacheEntry))
      → k ≢ j
      → lookup dec j ((k, v) ∷ l) ≡ lookup dec j l
  unfolding lookup
  lookup-cons_ne j k v l h = ground arith

  pub Lists-push :
      (order : List SnapshotCacheKey) (k : SnapshotCacheKey) (v : SnapshotCacheEntry)
      (l : List (SnapshotCacheKey × SnapshotCacheEntry))
      → lookup dec k l ≡ none
      → Lists order l
      → Lists (order ++ (k ∷ [])) ((k, v) ∷ l)
  unfolding Lists remove
  Lists-push [] k v l new h = rw h ((v, lookup-put_self dec k v []), remove-cons_self k v [])
  Lists-push (j ∷ order) k v l new ((e, found), h) =
      let other : k ≢ j = λ same. ground (arith, new, found, same) in
      (
        (e, lookup-cons_ne j k v l other ∙ found),
        rw (remove-cons_ne j k v l other)
            (Lists-push order k v (remove dec j l) (lookup-remove-none dec j k l new) h),
      )

  Lists-replace_head :
      (order : List SnapshotCacheKey) (k : SnapshotCacheKey) (v : SnapshotCacheEntry)
      (l : List (SnapshotCacheKey × SnapshotCacheEntry))
      → Lists order (remove dec k l)
      → Lists (k ∷ order) ((k, v) ∷ remove dec k l)
  unfolding Lists
  Lists-replace_head order k v l h = (
    (v, lookup-put_self dec k v l),
    rw
        (
          remove-cons_self k v (remove dec k l),
          remove_absent dec k (remove dec k l) (lookup-remove_self dec k l),
        )
        h,
  )

  pub Lists-replace :
      (order : List SnapshotCacheKey) (k : SnapshotCacheKey) (v e : SnapshotCacheEntry)
      (l : List (SnapshotCacheKey × SnapshotCacheEntry))
      → lookup dec k l ≡ some e
      → Lists order l
      → Lists order ((k, v) ∷ remove dec k l)
  unfolding Lists lookup
  Lists-replace [] k v e l here h = cc (here, ap (lookup dec k) h)
  Lists-replace (j ∷ order) k v e l here ((f, found), h) = elim (dec k j) [
    | yes p ↦
        subst (λ x. Lists (x ∷ order) ((k, v) ∷ remove dec k l)) p
          (Lists-replace_head order k v l (rw p h))
    | no p ↦ (
      (f, lookup-cons_ne j k v (remove dec k l) p ∙ lookup-remove_other dec k j l p ∙ found),
      rw (remove-cons_ne j k v (remove dec k l) p, remove-remove j k l)
          (Lists-replace order k v e (remove dec j l)
            (lookup-remove_other dec j k l (λ same. p (sym same)) ∙ here) h),
    )
  ]

  -- What a store leaves: a cache within the ceiling that has the new entry, and every other key as it
  -- was, but that a new key of a full cache drops the key that was stored first.
  pub record Stored (max_entries : ℕ) (cache after : SnapshotCache) (key : SnapshotCacheKey)
      (entry : SnapshotCacheEntry) : Type 0 where
    pub valid : IsBounded max_entries after
    pub present : lookup dec key after.entries ≡ some entry
    pub others :
        (q : SnapshotCacheKey)
        → key ≢ q
        → (lookup dec q after.entries ≡ lookup dec q cache.entries)
          ⊎ ((lookup dec q after.entries ≡ none)
              × ((rest : List SnapshotCacheKey) × (cache.order ≡ q ∷ rest)))

  pub fits :
      (max_entries : ℕ) (order : List SnapshotCacheKey)
      (l : List (SnapshotCacheKey × SnapshotCacheEntry))
      → length l ≤ max_entries
      → evict_front dec max_entries order l ≡ some (record { entries = l; order = order })
  unfolding evict_front
  fits max_entries [] l h = ground arith
  fits max_entries (k ∷ order) l h = ground arith

  pub one_over :
      (max_entries : ℕ) (k : SnapshotCacheKey) (order : List SnapshotCacheKey)
      (l : List (SnapshotCacheKey × SnapshotCacheEntry))
      → max_entries < length l
      → length (remove dec k l) ≤ max_entries
      → evict_front dec max_entries (k ∷ order) l
        ≡ some (record { entries = remove dec k l; order = order })
  unfolding evict_front
  one_over max_entries k order l h g = ground (arith, fits max_entries order (remove dec k l) g)
