-- ===== src/Gateway/Operations/Oldest.antt =====
-- What `evict`, the second half of `OperationStore::prune` in crates/gateway/src/operations.rs, keeps.
use krusty_kms.Prelude.{
  ℕ, ◌-◌, ◌≤◌, ◌<◌, ◌≡◌, ◌≢◌, refl, sym, ◌∙◌, List, none, some, true, false, length, leb,
  Bool-cases, ◌⊎◌, inl, inr, arith, min,
}
use krusty_kms.Prelude.Assoc.{Option-cases, take_front, lookup, Distinct}
use krusty_kms.Domain.Account.{OperationId}
use krusty_kms.Domain.Runtime.{
  OperationState, queued, running, completed, expired, submitted, accepted, rejected,
}
use krusty_kms.Gateway.Operations.{
  OperationEntry, Age, is_expired, age_of, age_leb, ages, sort_by_age, remove_each, evict,
}
use krusty_kms.Gateway.Operations.Eviction.{
  lookup-remove_each, remove_each_removed, remove_each-Distinct, length-remove_each,
  victims-present, take_front-Distinct, length-take_front, take_front-before, lookup-ages,
  ages-Distinct, length-ages,
}
use krusty_kms.Gateway.Operations.Eviction.Sorting.{
  sort_by_age-IsSorted, lookup-sort_by_age, sort_by_age-Distinct, length-sort_by_age,
}

-- `a` goes before `b`: it is expired and `b` is not, or both or none are and it was written no later.
pub data GoesFirst (a b : OperationEntry) : Type 0 where
  expired_first : a.status.state ≡ expired → b.status.state ≢ expired → GoesFirst a b
  expired_alike :
      a.status.state ≡ expired → b.status.state ≡ expired → a.revision ≤ b.revision → GoesFirst a b
  active_alike :
      a.status.state ≢ expired → b.status.state ≢ expired → a.revision ≤ b.revision → GoesFirst a b

expired-cases :
    (state : OperationState)
    → ((is_expired state ≡ true) × (state ≡ expired))
      ⊎ ((is_expired state ≡ false) × (state ≢ expired))
expired-cases expired = inl (refl, refl)
expired-cases queued = inr (refl, λ h. cc (h))
expired-cases running = inr (refl, λ h. cc (h))
expired-cases completed = inr (refl, λ h. cc (h))
expired-cases (submitted tx_hash) = inr (refl, λ h. cc (h))
expired-cases (accepted tx_hash) = inr (refl, λ h. cc (h))
expired-cases (rejected error) = inr (refl, λ h. cc (h))

age_leb-GoesFirst : (a b : OperationEntry) → age_leb (age_of a) (age_of b) ≡ true → GoesFirst a b
age_leb-GoesFirst a b h = elim (expired-cases a.status.state) [
  | inl (test, gone) ↦ elim (expired-cases b.status.state) [
    | inl (test', gone') ↦ expired_alike gone gone' (ground (arith, h, test, test'))
    | inr (test', alive) ↦ expired_first gone alive
  ]
  | inr (test, alive) ↦ elim (expired-cases b.status.state) [
    | inl (test', gone') ↦ ground (arith, h, test, test')
    | inr (test', alive') ↦ active_alike alive alive' (ground (arith, h, test, test'))
  ]
]

module _ (dec : Discrete OperationId) where
  -- What is kept of `l` under a limit: as many entries as the limit allows, unchanged, where each
  -- dropped entry goes before each kept one.
  pub record Newest (limit : ℕ) (l kept : List (OperationId × OperationEntry)) : Type 0 where
    pub distinct : Distinct dec kept
    pub size : length kept ≡ min limit (length l)
    pub unchanged :
        (q : OperationId) (e : OperationEntry)
        → lookup dec q kept ≡ some e
        → lookup dec q l ≡ some e
    pub oldest_dropped :
        (q p : OperationId) (a b : OperationEntry)
        → lookup dec q l ≡ some a
        → lookup dec q kept ≡ none
        → lookup dec p kept ≡ some b
        → GoesFirst a b

  module _ (l : List (OperationId × OperationEntry)) (d : Distinct dec l) (n : ℕ) where
    abbrev victims : List (OperationId × Age)
    victims = take_front n (sort_by_age (ages l))

    victims-Distinct : Distinct dec victims
    victims-Distinct =
        take_front-Distinct dec n _ (sort_by_age-Distinct dec (ages l) (ages-Distinct dec l d))

    length-victims : n ≤ length l → length victims ≡ n
    length-victims h =
        length-take_front dec n _
          (omega (arith, length-sort_by_age dec (ages l), length-ages dec l))

    removed-unchanged :
        (q : OperationId) (e : OperationEntry)
        → lookup dec q (remove_each dec victims l) ≡ some e
        → (lookup dec q victims ≡ none) × (lookup dec q l ≡ some e)
    removed-unchanged q e h = elim (Option-cases (lookup dec q victims)) [
      | inl spared ↦ (spared, sym (lookup-remove_each dec q victims l spared) ∙ h)
      | inr (a, found) ↦ cc (h, remove_each_removed dec q victims l found)
    ]

    removed-oldest :
        (q p : OperationId) (a b : OperationEntry)
        → lookup dec q l ≡ some a
        → lookup dec q (remove_each dec victims l) ≡ none
        → lookup dec p (remove_each dec victims l) ≡ some b
        → age_leb (age_of a) (age_of b) ≡ true
    removed-oldest q p a b hq gone kept =
        let (spared, present) = removed-unchanged p b kept in
        let keys = ages-Distinct dec l d in
        let p-age = lookup-sort_by_age dec p (ages l) keys ∙ lookup-ages dec p l present in
        elim (Option-cases (lookup dec q victims)) [
          | inl kept_q ↦ cc (hq, gone, lookup-remove_each dec q victims l kept_q)
          | inr (x, found) ↦
              let (e, here, same) = victims-present dec n l d q x found in
              let first =
                take_front-before dec n q p (sort_by_age (ages l))
                  (sort_by_age-IsSorted dec (ages l) keys) found spared p-age in
              ground (arith, hq, here, same, first)
        ]

    removed-Newest :
        (limit : ℕ)
        → n ≡ length l - limit
        → limit < length l
        → Newest limit l (remove_each dec victims l)
    removed-Newest limit e h = record {
      distinct = remove_each-Distinct dec victims l d;
      size = omega (
        arith,
        length-victims (omega arith),
        length-remove_each dec victims l victims-Distinct d
            (λ q a found. let (x, here, _) = victims-present dec n l d q a found in (x, here)),
      );
      unchanged = λ q e kept. (removed-unchanged q e kept).1;
      oldest_dropped =
          λ q p a b hq gone kept. age_leb-GoesFirst a b (removed-oldest q p a b hq gone kept);
    }

  -- Of entries with distinct ids, `evict` keeps, unchanged, as many as the limit allows. Between a
  -- dropped and a kept entry, the dropped one is expired and the kept one is not, or both are or none
  -- is and the dropped one's revision is not the greater.
  pub evict-Newest :
      (limit : ℕ) (l : List (OperationId × OperationEntry))
      → Distinct dec l
      → Newest limit l (evict dec limit l)
  unfolding evict
  evict-Newest limit l d = elim (Bool-cases (leb (length l) limit)) [
    | inl fits ↦ rw fits (record {
      distinct = d;
      size = ground arith;
      unchanged = λ q e h. h;
      oldest_dropped = λ q p a b hq gone kept. cc (hq, gone);
    })
    | inr over ↦ rw over (removed-Newest l d (length l - limit) limit refl (ground arith))
  ]
