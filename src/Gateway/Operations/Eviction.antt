-- ===== src/Gateway/Operations/Eviction.antt =====
-- The eviction loop of `OperationStore::prune` in crates/gateway/src/operations.rs.
pub mod Sorting
use krusty_kms.Prelude.{
  ℕ, suc, ◌+◌, ◌-◌, ◌≤◌, ◌≡◌, ◌≢◌, refl, sym, ◌∙◌, List, [], ◌∷◌, Option, none, some, Bool, true,
  false, length, leb, Bool-cases, inl, inr, if◌then◌else◌, arith, min,
}
use krusty_kms.Prelude.Assoc.{
  some_injective, Option-cases, take_front, lookup, remove, Distinct, lookup-remove_self,
  lookup-remove_other, lookup-remove-none, remove-Distinct, length-remove,
}
use krusty_kms.Domain.Account.{OperationId}
use krusty_kms.Gateway.Operations.{
  OperationEntry, Age, age_of, age_leb, ages, insert_by_age, sort_by_age, remove_each, evict,
}
use Sorting.{
  IsSorted, sort_by_age-IsSorted, lookup-sort_by_age, sort_by_age-Distinct, length-sort_by_age,
}

module _ (dec : Discrete OperationId) where
  pub lookup-ages-none :
      (q : OperationId) (l : List (OperationId × OperationEntry))
      → lookup dec q l ≡ none
      → lookup dec q (ages l) ≡ none
  unfolding lookup ages
  lookup-ages-none q [] h = refl
  lookup-ages-none q (e ∷ l) h = ground (arith, lookup-ages-none q l)

  pub lookup-ages :
      (q : OperationId) (l : List (OperationId × OperationEntry)) {e : OperationEntry}
      → lookup dec q l ≡ some e
      → lookup dec q (ages l) ≡ some (age_of e)
  unfolding lookup ages
  lookup-ages q [] h = cc
  lookup-ages q (f ∷ l) {e} h = ground (arith, lookup-ages q l {e = e})

  pub ages-Distinct :
      (l : List (OperationId × OperationEntry)) → Distinct dec l → Distinct dec (ages l)
  unfolding Distinct ages
  ages-Distinct [] h = tt
  ages-Distinct (e ∷ l) h = (lookup-ages-none e.0 l h.0, ages-Distinct l h.1)

  pub length-ages : (l : List (OperationId × OperationEntry)) → length (ages l) ≡ length l
  unfolding ages
  length-ages [] = refl
  length-ages (e ∷ l) = omega (arith, length-ages l)

  lookup-take_front-some :
      (n : ℕ) (q : OperationId) (l : List (OperationId × Age)) {a : Age}
      → lookup dec q (take_front n l) ≡ some a
      → lookup dec q l ≡ some a
  unfolding lookup take_front
  lookup-take_front-some (suc n) q (e ∷ l) {a} h =
      ground (arith, lookup-take_front-some n q l {a = a})
  lookup-take_front-some _ q _ h = ground arith

  lookup-take_front-none :
      (n : ℕ) (q : OperationId) (l : List (OperationId × Age))
      → lookup dec q l ≡ none
      → lookup dec q (take_front n l) ≡ none
  unfolding lookup take_front
  lookup-take_front-none (suc n) q (e ∷ l) h = ground (arith, lookup-take_front-none n q l)
  lookup-take_front-none _ q _ h = ground arith

  pub take_front-Distinct :
      (n : ℕ) (l : List (OperationId × Age)) → Distinct dec l → Distinct dec (take_front n l)
  unfolding Distinct take_front
  take_front-Distinct (suc n) (e ∷ l) h =
      (lookup-take_front-none n e.0 l h.0, take_front-Distinct n l h.1)
  take_front-Distinct _ _ h = ground arith

  pub length-take_front :
      (n : ℕ) (l : List (OperationId × Age)) → n ≤ length l → length (take_front n l) ≡ n
  unfolding take_front
  length-take_front (suc n) (e ∷ l) h = omega (arith, length-take_front n l)
  length-take_front _ _ h = ground arith

  -- The keys that are taken from a sorted list come before the ones that are left.
  pub take_front-before :
      (n : ℕ) (q p : OperationId) (l : List (OperationId × Age)) {a b : Age}
      → IsSorted dec l
      → lookup dec q (take_front n l) ≡ some a
      → lookup dec p (take_front n l) ≡ none
      → lookup dec p l ≡ some b
      → age_leb a b ≡ true
  unfolding lookup take_front IsSorted
  take_front-before (suc n) q p (e ∷ l) {a} {b} s hq hp hb =
      ground (arith, s.0 p b, take_front-before n q p l {a = a} {b = b} s.1)
  take_front-before _ q p _ s hq hp hb = ground arith

  pub lookup-remove_each :
      (q : OperationId) (victims : List (OperationId × Age))
      (l : List (OperationId × OperationEntry))
      → lookup dec q victims ≡ none
      → lookup dec q (remove_each dec victims l) ≡ lookup dec q l
  unfolding lookup remove_each
  lookup-remove_each q [] l h = refl
  lookup-remove_each q (v ∷ victims) l h =
      ground
        (arith, lookup-remove_each q victims (remove dec v.0 l), lookup-remove_other dec v.0 q l)

  pub remove_each-none :
      (q : OperationId) (victims : List (OperationId × Age))
      (l : List (OperationId × OperationEntry))
      → lookup dec q l ≡ none
      → lookup dec q (remove_each dec victims l) ≡ none
  unfolding remove_each
  remove_each-none q [] l h = h
  remove_each-none q (v ∷ victims) l h =
      remove_each-none q victims (remove dec v.0 l) (lookup-remove-none dec v.0 q l h)

  pub remove_each_removed :
      (q : OperationId) (victims : List (OperationId × Age))
      (l : List (OperationId × OperationEntry)) {a : Age}
      → lookup dec q victims ≡ some a
      → lookup dec q (remove_each dec victims l) ≡ none
  unfolding lookup remove_each
  remove_each_removed q [] l h = cc
  remove_each_removed q ((id, _) ∷ victims) l {a} h = elim (dec id q) [
    | yes p ↦ rw (← p) (remove_each-none id victims (remove dec id l) (lookup-remove_self dec id l))
    | no p ↦ remove_each_removed q victims (remove dec id l) {a = a} (ground arith)
  ]

  pub remove_each-Distinct :
      (victims : List (OperationId × Age)) (l : List (OperationId × OperationEntry))
      → Distinct dec l
      → Distinct dec (remove_each dec victims l)
  unfolding remove_each
  remove_each-Distinct [] l h = h
  remove_each-Distinct (v ∷ victims) l h =
      remove_each-Distinct victims (remove dec v.0 l) (remove-Distinct dec v.0 l h)

  pub length-remove_each :
      (victims : List (OperationId × Age)) (l : List (OperationId × OperationEntry))
      → Distinct dec victims
      → Distinct dec l
      → ((q : OperationId) (a : Age)
          → lookup dec q victims ≡ some a
          → (e : OperationEntry) × (lookup dec q l ≡ some e))
      → length (remove_each dec victims l) + length victims ≡ length l
  unfolding lookup remove_each Distinct
  length-remove_each [] l dv d present = omega arith
  length-remove_each ((id, age) ∷ victims) l dv d present =
      let (e, here) = present id age (ground arith) in
      let rest =
        length-remove_each victims (remove dec id l) dv.1 (remove-Distinct dec id l d) (λ q a h.
          let other : id ≢ q = λ same. ground arith in
          let (f, there) = present q a (ground arith) in
          (f, lookup-remove_other dec id q l other ∙ there)) in
      omega (arith, rest, length-remove dec id l e d here)

  pub victims-present :
      (n : ℕ) (l : List (OperationId × OperationEntry))
      → Distinct dec l
      → (q : OperationId) (a : Age) → lookup dec q (take_front n (sort_by_age (ages l))) ≡ some a
      → (e : OperationEntry) × (lookup dec q l ≡ some e) × (age_of e ≡ a)
  victims-present n l d q a h =
      let sorted = lookup-take_front-some n q (sort_by_age (ages l)) h in
      let found = sym (lookup-sort_by_age dec q (ages l) (ages-Distinct l d)) ∙ sorted in
      elim (Option-cases (lookup dec q l)) [
        | inl missing ↦ cc (lookup-ages-none q l missing)
        | inr (e, here) ↦ (e, here, some_injective (sym (lookup-ages q l here) ∙ found))
      ]
