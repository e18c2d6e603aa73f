-- ===== src/Gateway/Operations/Eviction/Sorting.antt =====
-- The sort by age in `OperationStore::prune` of crates/gateway/src/operations.rs.
use krusty_kms.Prelude.{
  suc, ◌≡◌, refl, List, [], ◌∷◌, none, some, true, false, length, Bool-cases, inl, inr, arith,
}
use krusty_kms.Prelude.Assoc.{lookup, Distinct}
use krusty_kms.Domain.Account.{OperationId}
use krusty_kms.Gateway.Operations.{Age, age_leb, insert_by_age, sort_by_age}

age_leb_trans : (a b c : Age) → age_leb a b ≡ true → age_leb b c ≡ true → age_leb a c ≡ true
age_leb_trans (false, a) (false, b) (false, c) h g = ground arith
age_leb_trans (true, a) (true, b) (true, c) h g = ground arith
age_leb_trans (false, a) (_, b) (true, c) h g = refl
age_leb_trans (false, a) (true, b) (false, c) h g = cc
age_leb_trans (true, a) (false, b) (_, c) h g = cc
age_leb_trans (true, a) (true, b) (false, c) h g = cc

age_leb_total : (a b : Age) → age_leb a b ≡ false → age_leb b a ≡ true
age_leb_total (false, a) (false, b) h = ground arith
age_leb_total (true, a) (true, b) h = ground arith
age_leb_total (false, a) (true, b) h = cc
age_leb_total (true, a) (false, b) h = refl

module _ (dec : Discrete OperationId) where
  -- Every entry comes before the ones after it.
  unfoldable pub IsSorted : List (OperationId × Age) → Type 0
  IsSorted [] = Unit
  IsSorted (e ∷ l) =
      ((q : OperationId) (a : Age) → lookup dec q l ≡ some a → age_leb e.1 a ≡ true) × IsSorted l

  lookup-insert_by_age :
      (q : OperationId) (e : OperationId × Age) (l : List (OperationId × Age))
      → lookup dec e.0 l ≡ none
      → lookup dec q (insert_by_age e l) ≡ lookup dec q (e ∷ l)
  unfolding lookup insert_by_age
  lookup-insert_by_age q e [] h = refl
  lookup-insert_by_age q e (f ∷ l) h = ground (arith, lookup-insert_by_age q e l)

  insert_by_age-Distinct :
      (e : OperationId × Age) (l : List (OperationId × Age))
      → lookup dec e.0 l ≡ none
      → Distinct dec l
      → Distinct dec (insert_by_age e l)
  unfolding lookup insert_by_age Distinct
  insert_by_age-Distinct e [] h d = ground arith
  insert_by_age-Distinct e (f ∷ l) h d =
      ground (arith, lookup-insert_by_age f.0 e l, insert_by_age-Distinct e l)

  length-insert_by_age :
      (e : OperationId × Age) (l : List (OperationId × Age))
      → length (insert_by_age e l) ≡ suc (length l)
  unfolding insert_by_age
  length-insert_by_age e [] = refl
  length-insert_by_age e (f ∷ l) = ground (arith, length-insert_by_age e l)

  pub length-sort_by_age : (l : List (OperationId × Age)) → length (sort_by_age l) ≡ length l
  unfolding sort_by_age
  length-sort_by_age [] = refl
  length-sort_by_age (e ∷ l) =
      omega (arith, length-insert_by_age e (sort_by_age l), length-sort_by_age l)

  pub lookup-sort_by_age :
      (q : OperationId) (l : List (OperationId × Age))
      → Distinct dec l
      → lookup dec q (sort_by_age l) ≡ lookup dec q l
  unfolding lookup sort_by_age Distinct
  lookup-sort_by_age q [] d = refl
  lookup-sort_by_age q (e ∷ l) d = ground (
    arith,
    lookup-insert_by_age q e (sort_by_age l),
    lookup-sort_by_age q l,
    lookup-sort_by_age e.0 l,
  )

  pub sort_by_age-Distinct :
      (l : List (OperationId × Age)) → Distinct dec l → Distinct dec (sort_by_age l)
  unfolding sort_by_age Distinct
  sort_by_age-Distinct [] d = tt
  sort_by_age-Distinct (e ∷ l) d = ground (
    arith,
    insert_by_age-Distinct e (sort_by_age l),
    lookup-sort_by_age e.0 l,
    sort_by_age-Distinct l,
  )

  insert_by_age-IsSorted :
      (e : OperationId × Age) (l : List (OperationId × Age))
      → lookup dec e.0 l ≡ none
      → IsSorted l
      → IsSorted (insert_by_age e l)
  unfolding lookup insert_by_age IsSorted
  insert_by_age-IsSorted e [] h s = (λ q a g. cc, tt)
  insert_by_age-IsSorted e (f ∷ l) h s = elim (Bool-cases (age_leb e.1 f.1)) [
    | inl before ↦ rw before (λ q a g. ground (arith, s.0 q a, age_leb_trans e.1 f.1 a), s)
    | inr after ↦ rw after (
      λ q a g. ground (arith, lookup-insert_by_age q e l, s.0 q a, age_leb_total e.1 f.1),
      ground (arith, insert_by_age-IsSorted e l),
    )
  ]

  pub sort_by_age-IsSorted :
      (l : List (OperationId × Age)) → Distinct dec l → IsSorted (sort_by_age l)
  unfolding sort_by_age Distinct IsSorted
  sort_by_age-IsSorted [] d = tt
  sort_by_age-IsSorted (e ∷ l) d =
      insert_by_age-IsSorted e (sort_by_age l) (ground (arith, lookup-sort_by_age e.0 l))
        (sort_by_age-IsSorted l d.1)
