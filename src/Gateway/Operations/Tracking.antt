-- ===== src/Gateway/Operations/Tracking.antt =====
-- `insert` and `get` of crates/gateway/src/operations.rs, one after the other.
use mathlib.Core.Option
use krusty_kms.Prelude.{
  ℕ, ◌+◌, ◌-◌, ◌<◌, ◌≡◌, ◌≢◌, refl, sym, ◌∙◌, ap, List, [], ◌∷◌, Option, none, some, true, false,
  length, ltb, leb, inl, inr, if◌then◌else◌, arith,
}
use krusty_kms.Prelude.Assoc.{
  some_injective, Option-cases, lookup, remove, Distinct, put-Distinct, lookup-put_self,
  lookup-remove_other,
}
use krusty_kms.Prelude.Assoc
use krusty_kms.Gateway.Clock.{u64_max}
use krusty_kms.Domain.Account.{OperationId}
use krusty_kms.Domain.Runtime.{OperationStatus, expired}
use krusty_kms.Gateway.Operations.{
  OperationEntry, OperationStore, is_expired, expire, expire_all, evict, prune, get, insert,
}
use krusty_kms.Gateway.Operations.Oldest.{
  expired_first, expired_alike, active_alike, Newest, evict-Newest,
}
use krusty_kms.Gateway.Operations.Retention.{
  IsValid, lookup-expire_all, expire_all-Distinct, length-expire_all, prune-IsValid,
  expire_revision, map-eq-some,
}

-- The status as `get` shows it at `now_ms` when it was written at `at_ms`.
abbrev pub shown : ℕ → OperationStatus → ℕ → ℕ → OperationStatus
shown ttl_ms status at_ms now_ms =
    if ltb ttl_ms (now_ms - at_ms) then record status { state = expired } else status

module _ (dec : Discrete OperationId) where
  positive_length :
      (l : List (OperationId × OperationEntry)) (q : OperationId) {e : OperationEntry}
      → lookup dec q l ≡ some e
      → 0 < length l
  unfolding lookup
  positive_length [] q h = cc
  positive_length (x ∷ l) q h = omega arith

  lookup-put_ne :
      {V : Type 0} (k q : OperationId) (v : V) (l : List (OperationId × V))
      → k ≢ q
      → lookup dec q (Assoc.put dec k v l) ≡ lookup dec q l
  unfolding lookup
  lookup-put_ne k q v l h = ground (arith, lookup-remove_other dec k q l)

  nonempty :
      (l : List (OperationId × OperationEntry))
      → 0 < length l
      → (q : OperationId) × (e : OperationEntry) × (lookup dec q l ≡ some e)
  unfolding lookup
  nonempty [] h = absurd (omega arith)
  nonempty ((q, e) ∷ l) h = (q, e, ground arith)

  abbrev pub entry_of : OperationStore → OperationStatus → ℕ → OperationEntry
  entry_of s status now_ms = record {
    status = status;
    updated_at_ms = now_ms;
    revision = s.next_revision;
  }

  module _ (s : OperationStore) (v : IsValid dec s) (room : s.next_revision < u64_max)
      (status : OperationStatus) (now_ms : ℕ) where
    older_after :
        (q : OperationId) (e : OperationEntry)
        → lookup dec q (Assoc.put dec status.id (entry_of s status now_ms) s.entries) ≡ some e
        → e.revision < s.next_revision + 1
    older_after q e h = elim (dec status.id q) [
      | yes p ↦
          let same = lookup-put_self dec status.id (entry_of s status now_ms) s.entries in
          ground (arith, rw (← p) at h, same)
      | no p ↦
          let found = sym (lookup-put_ne status.id q (entry_of s status now_ms) s.entries p) ∙ h in
          omega (arith, v.older q e found)
    ]

    -- Writing a status keeps the store well formed: one entry an id, no more entries than the policy
    -- allows, and revisions below the next one. The revision counter is not at its end.
    pub insert-IsValid : IsValid dec (insert dec s status now_ms)
    unfolding insert
    insert-IsValid =
        prune-IsValid dec _ now_ms v.positive
          (put-Distinct dec status.id (entry_of s status now_ms) s.entries v.distinct)
          (λ q e h. omega (arith, older_after q e h))

    written : List (OperationId × OperationEntry)
    written =
        expire_all s.retention.ttl_ms now_ms
          (Assoc.put dec status.id (entry_of s status now_ms) s.entries)

    written-Newest :
        Newest dec s.retention.max_entries written (evict dec s.retention.max_entries written)
    unfolding written
    written-Newest = evict-Newest dec s.retention.max_entries written (
        expire_all-Distinct dec s.retention.ttl_ms now_ms _
          (put-Distinct dec status.id (entry_of s status now_ms) s.entries v.distinct))

    lookup-written :
        lookup dec status.id written
        ≡ some (expire s.retention.ttl_ms now_ms (entry_of s status now_ms))
    unfolding written
    lookup-written =
        lookup-expire_all dec s.retention.ttl_ms now_ms status.id _
        ∙ ap (Option.map (expire s.retention.ttl_ms now_ms))
            (lookup-put_self dec status.id (entry_of s status now_ms) s.entries)

    expire_new :
        expire s.retention.ttl_ms now_ms (entry_of s status now_ms) ≡ entry_of s status now_ms
    unfolding expire
    expire_new = ground arith

    -- Any other entry has an earlier revision.
    written_older :
        (q : OperationId) (e : OperationEntry)
        → status.id ≢ q
        → lookup dec q written ≡ some e
        → e.revision < s.next_revision
    unfolding written
    written_older q e other h =
        let (old, found, same) =
          map-eq-some dec _ _ (sym (lookup-expire_all dec s.retention.ttl_ms now_ms q _) ∙ h) in
        let before =
          sym (lookup-put_ne status.id q (entry_of s status now_ms) s.entries other) ∙ found in
        ground
          (arith, v.older q old before, expire_revision dec s.retention.ttl_ms now_ms old, same)

    newest_kept :
        is_expired status.state ≡ false
        → lookup dec status.id (evict dec s.retention.max_entries written) ≢ none
    newest_kept active gone =
        let here = lookup-written ∙ ap some expire_new in
        let size = written-Newest.size in
        let positive = v.positive in
        let some_left : 0 < length written = positive_length written status.id here in
        let (p, b, kept) = nonempty (evict dec s.retention.max_entries written) (ground arith) in
        let other : status.id ≢ p = λ same. cc (gone, kept, same) in
        let late = written_older p b other (written-Newest.unchanged p b kept) in
        let order = written-Newest.oldest_dropped status.id p _ b here gone kept in
        elim order [
          | expired_first gone_state alive ↦ cc (gone_state, active)
          | expired_alike gone_state same earlier ↦ cc (gone_state, active)
          | active_alike alive alive' earlier ↦ omega (arith, late, earlier)
        ]

    -- A status that is not `Expired` is in the store after it is written, with the time of the write:
    -- the eviction that follows never drops it.
    pub lookup-insert :
        is_expired status.state ≡ false
        → lookup dec status.id (insert dec s status now_ms).entries
          ≡ some (entry_of s status now_ms)
    unfolding insert prune written
    lookup-insert active =
        elim (Option-cases (lookup dec status.id (insert dec s status now_ms).entries)) [
          | inl gone ↦ absurd (newest_kept active gone)
          | inr (e, kept) ↦
              kept
              ∙ ap some (
                  some_injective (
                    sym (written-Newest.unchanged status.id e kept)
                    ∙ lookup-written
                    ∙ ap some expire_new))
        ]

  -- On a well-formed store `get` evicts nothing: it shows the entry, expired once it is older than the
  -- time to live.
  pub get-lookup :
      (s : OperationStore) (id : OperationId) (now_ms : ℕ)
      → IsValid dec s
      → (get dec s id now_ms).0
        ≡ Option.map (λ e. (expire s.retention.ttl_ms now_ms e).status) (lookup dec id s.entries)
  unfolding get prune evict
  get-lookup s id now_ms v =
      let fits : leb (length (expire_all s.retention.ttl_ms now_ms s.entries))
            s.retention.max_entries
          ≡ true =
        ground (arith, length-expire_all dec s.retention.ttl_ms now_ms s.entries, v.bounded) in
      rw (fits, lookup-expire_all dec s.retention.ttl_ms now_ms id s.entries)
        (map_map (lookup dec id s.entries))
    where
      map_map :
          (o : Option OperationEntry)
          → Option.map (λ e. e.status) (Option.map (expire s.retention.ttl_ms now_ms) o)
            ≡ Option.map (λ e. (expire s.retention.ttl_ms now_ms e).status) o
      map_map none = refl
      map_map (some e) = refl

  pub insert_revision :
      (s : OperationStore) (status : OperationStatus) (now_ms : ℕ)
      → s.next_revision < u64_max
      → (insert dec s status now_ms).next_revision ≡ s.next_revision + 1
  unfolding insert prune
  insert_revision s status now_ms h = omega arith

  pub insert_retention :
      (s : OperationStore) (status : OperationStatus) (now_ms : ℕ)
      → (insert dec s status now_ms).retention ≡ s.retention
  unfolding insert prune
  insert_retention s status now_ms = refl

  -- On a well-formed store whose revision counter is not at its end, a status that is not `Expired` and
  -- is written is what the next `get` of its id returns, as it is while no older than the time to live,
  -- and with the state `Expired` after that.
  pub get-insert :
      (s : OperationStore) (status : OperationStatus) (at_ms now_ms : ℕ)
      → IsValid dec s
      → s.next_revision < u64_max
      → is_expired status.state ≡ false
      → (get dec (insert dec s status at_ms) status.id now_ms).0
        ≡ some (shown s.retention.ttl_ms status at_ms now_ms)
  unfolding expire
  get-insert s status at_ms now_ms v room active =
      get-lookup (insert dec s status at_ms) status.id now_ms (insert-IsValid s v room status at_ms)
      ∙ rw (lookup-insert s v room status at_ms active, active, insert_retention s status at_ms)
          (ground arith)
