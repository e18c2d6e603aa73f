-- ===== src/Gateway/Operations/Retention.antt =====
-- What crates/gateway/src/operations.rs keeps of tracked operations, and what a later `get` returns.
use mathlib.Core.Option
use krusty_kms.Prelude.{
  ℕ, ◌≤◌, ◌<◌, ◌≡◌, refl, sym, ◌∙◌, ap, List, [], ◌∷◌, Option, none, some, length, arith,
}
use krusty_kms.Prelude.Assoc.{lookup, Distinct}
use krusty_kms.Domain.Account.{OperationId}
use krusty_kms.Gateway.Operations.{
  OperationRetentionPolicy, OperationEntry, OperationStore, new, expire, expire_all, evict, prune,
  get,
}
use krusty_kms.Gateway.Operations.Oldest.{Newest, evict-Newest}

module _ (dec : Discrete OperationId) where
  -- The invariant of the store: one entry an id, no more entries than the policy allows, and revisions
  -- below the next one.
  pub record IsValid (s : OperationStore) : Type 0 where
    pub positive : 0 < s.retention.max_entries
    pub distinct : Distinct dec s.entries
    pub bounded : length s.entries ≤ s.retention.max_entries
    pub older :
        (q : OperationId) (e : OperationEntry)
        → lookup dec q s.entries ≡ some e
        → e.revision < s.next_revision

  pub new-IsValid :
      (policy : OperationRetentionPolicy) → 0 < policy.max_entries → IsValid (new policy)
  unfolding new lookup Distinct
  new-IsValid policy h = record {
    positive = h;
    distinct = tt;
    bounded = omega arith;
    older = λ q e found. cc;
  }

  pub lookup-expire_all :
      (ttl_ms now_ms : ℕ) (q : OperationId) (l : List (OperationId × OperationEntry))
      → lookup dec q (expire_all ttl_ms now_ms l)
        ≡ Option.map (expire ttl_ms now_ms) (lookup dec q l)
  unfolding lookup expire_all
  lookup-expire_all ttl_ms now_ms q [] = refl
  lookup-expire_all ttl_ms now_ms q (e ∷ l) = ground (arith, lookup-expire_all ttl_ms now_ms q l)

  pub length-expire_all :
      (ttl_ms now_ms : ℕ) (l : List (OperationId × OperationEntry))
      → length (expire_all ttl_ms now_ms l) ≡ length l
  unfolding expire_all
  length-expire_all ttl_ms now_ms [] = refl
  length-expire_all ttl_ms now_ms (e ∷ l) = omega (arith, length-expire_all ttl_ms now_ms l)

  pub expire_all-Distinct :
      (ttl_ms now_ms : ℕ) (l : List (OperationId × OperationEntry))
      → Distinct dec l
      → Distinct dec (expire_all ttl_ms now_ms l)
  unfolding Distinct expire_all
  expire_all-Distinct ttl_ms now_ms [] h = tt
  expire_all-Distinct ttl_ms now_ms (e ∷ l) h = (
    lookup-expire_all ttl_ms now_ms e.0 l ∙ ap (Option.map (expire ttl_ms now_ms)) h.0,
    expire_all-Distinct ttl_ms now_ms l h.1,
  )

  pub expire_revision :
      (ttl_ms now_ms : ℕ) (e : OperationEntry) → (expire ttl_ms now_ms e).revision ≡ e.revision
  unfolding expire
  expire_revision ttl_ms now_ms e = ground arith

  pub map-eq-some :
      {A B : Type 0} (f : A → B) (o : Option A) {b : B}
      → Option.map f o ≡ some b
      → (a : A) × (o ≡ some a) × (f a ≡ b)
  map-eq-some f none h = cc
  map-eq-some f (some a) h = (a, refl, cc h)

  -- An entry after `prune` is one from before it, perhaps expired.
  pub prune_from :
      (s : OperationStore) (now_ms : ℕ) (q : OperationId) (e : OperationEntry)
      → Distinct dec s.entries
      → lookup dec q (prune dec s now_ms).entries ≡ some e
      → (old : OperationEntry) × (lookup dec q s.entries ≡ some old)
        × (expire s.retention.ttl_ms now_ms old ≡ e)
  unfolding prune
  prune_from s now_ms q e d h =
      let all = expire_all s.retention.ttl_ms now_ms s.entries in
      let newest : Newest dec s.retention.max_entries all (evict dec s.retention.max_entries all) =
        evict-Newest dec s.retention.max_entries all (expire_all-Distinct _ _ s.entries d) in
      map-eq-some _ _
        (sym (lookup-expire_all s.retention.ttl_ms now_ms q s.entries) ∙ newest.unchanged q e h)

  pub prune-IsValid :
      (s : OperationStore) (now_ms : ℕ)
      → 0 < s.retention.max_entries
      → Distinct dec s.entries
      → ((q : OperationId) (e : OperationEntry)
          → lookup dec q s.entries ≡ some e
          → e.revision < s.next_revision)
      → IsValid (prune dec s now_ms)
  unfolding prune
  prune-IsValid s now_ms positive d older =
      let all = expire_all s.retention.ttl_ms now_ms s.entries in
      let newest : Newest dec s.retention.max_entries all (evict dec s.retention.max_entries all) =
        evict-Newest dec s.retention.max_entries all (expire_all-Distinct _ _ s.entries d) in
      record {
        positive = positive;
        distinct = newest.distinct;
        bounded = ground (arith, newest.size);
        older = λ q e h.
            let (old, found, same) = prune_from s now_ms q e d h in
            let revision = expire_revision s.retention.ttl_ms now_ms old in
            ground (arith, same, revision, older q old found);
      }

  pub get-IsValid :
      (s : OperationStore) (id : OperationId) (now_ms : ℕ)
      → IsValid s
      → IsValid (get dec s id now_ms).1
  unfolding get
  get-IsValid s id now_ms v = prune-IsValid s now_ms v.positive v.distinct v.older
