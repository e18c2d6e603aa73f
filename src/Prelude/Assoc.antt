-- ===== src/Prelude/Assoc.antt =====
-- A map as an association list over keys with a decidable equality. Where code iterates over a map,
-- the order is the list's.
use Prim.Native.Nat.{ℕ, zero, suc}
use mathlib.Core.Path.{◌≡◌, refl}
use mathlib.Core.Logic.{◌≢◌, ◌⊎◌, inl, inr, ite}
use mathlib.Core.Option.{Option, none, some}
use mathlib.Core.List.{List, [], ◌∷◌}
use native.Mathlib.Omega.{arith}
use krusty_kms.Prelude.Lists.{length}

module _ {ℓ} {A : Type ℓ} where
  pub Option-cases : (o : Option A) → (o ≡ none) ⊎ ((a : A) × (o ≡ some a))
  Option-cases none = inl refl
  Option-cases (some a) = inr (a, refl)

  pub some_injective : {a b : A} → some a ≡ some b → a ≡ b
  some_injective h = cc h

  unfoldable pub take_front : ℕ → List A → List A
  take_front zero xs = []
  take_front (suc n) [] = []
  take_front (suc n) (x ∷ xs) = x ∷ take_front n xs

module _ {ℓ} {K V : Type ℓ} (dec : Discrete K) where
  unfoldable pub lookup : K → List (K × V) → Option V
  lookup key [] = none
  lookup key ((j, v) ∷ entries) = ite (dec j key) (some v) (lookup key entries)

  unfoldable pub remove : K → List (K × V) → List (K × V)
  remove key [] = []
  remove key ((j, v) ∷ entries) =
      let rest = remove key entries in ite (dec j key) rest ((j, v) ∷ rest)

  abbrev pub put : K → V → List (K × V) → List (K × V)
  put key v entries = (key, v) ∷ remove key entries

  -- No key stands twice.
  unfoldable pub Distinct : List (K × V) → Type ℓ
  Distinct [] = Unit
  Distinct ((key, v) ∷ entries) = (lookup key entries ≡ none) × Distinct entries

  pub lookup-remove_self :
      (key : K) (entries : List (K × V)) → lookup key (remove key entries) ≡ none
  unfolding lookup remove
  lookup-remove_self key [] = refl
  lookup-remove_self key (e ∷ entries) = ground (arith, lookup-remove_self key entries)

  pub lookup-remove_other :
      (key other : K) (entries : List (K × V))
      → key ≢ other
      → lookup other (remove key entries) ≡ lookup other entries
  unfolding lookup remove
  lookup-remove_other key other [] _ = refl
  lookup-remove_other key other (e ∷ entries) h =
      ground (arith, lookup-remove_other key other entries)

  pub lookup-remove-none :
      (key other : K) (entries : List (K × V))
      → lookup other entries ≡ none
      → lookup other (remove key entries) ≡ none
  unfolding lookup remove
  lookup-remove-none key other [] h = refl
  lookup-remove-none key other (e ∷ entries) h =
      ground (arith, lookup-remove-none key other entries)

  pub remove-Distinct :
      (key : K) (entries : List (K × V)) → Distinct entries → Distinct (remove key entries)
  unfolding Distinct remove
  remove-Distinct key [] h = tt
  remove-Distinct key (e ∷ entries) h =
      ground (arith, lookup-remove-none key e.0 entries, remove-Distinct key entries)

  pub put-Distinct :
      (key : K) (v : V) (entries : List (K × V)) → Distinct entries → Distinct (put key v entries)
  unfolding Distinct
  put-Distinct key v entries h = (lookup-remove_self key entries, remove-Distinct key entries h)

  pub remove_absent :
      (key : K) (entries : List (K × V)) → lookup key entries ≡ none → remove key entries ≡ entries
  unfolding lookup remove
  remove_absent key [] _ = refl
  remove_absent key (e ∷ entries) h = ground (arith, remove_absent key entries)

  pub length-remove :
      (key : K) (entries : List (K × V)) (v : V)
      → Distinct entries
      → lookup key entries ≡ some v
      → suc (length (remove key entries)) ≡ length entries
  unfolding lookup remove Distinct
  length-remove key [] v d h = cc
  length-remove key ((j, w) ∷ entries) v d h = elim (dec j key) [
    | yes p ↦ ground (arith, remove_absent key entries)
    | no p ↦ ground (arith, length-remove key entries v)
  ]

  pub lookup-put_self :
      (key : K) (v : V) (entries : List (K × V)) → lookup key (put key v entries) ≡ some v
  unfolding lookup
  lookup-put_self key v entries = ground arith

  pub lookup-cons_self :
      (key : K) (v : V) (entries : List (K × V)) → lookup key ((key, v) ∷ entries) ≡ some v
  unfolding lookup
  lookup-cons_self key v entries = ground arith
