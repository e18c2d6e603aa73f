-- ===== src/Gateway/AccountClass/Allowed.antt =====
-- Which account classes crates/gateway/src/account_class.rs resolves.
use krusty_kms.Prelude.{
  ◌≡◌, refl, Option, none, some, Bool, true, false, not, ◌&&◌, ◌||◌, ◌⊎◌, inl, inr, ap, subst, List,
  ℕ, arith,
}
use krusty_kms.Domain.Error.{GatewayResult, returns, check-eq-returns, >>=-eq-returns}
use krusty_kms.Domain.Account.{ChainId, FeltHex, AccountClassKind as Kind, AccountClassSpec}
use krusty_kms.Kms.AccountClass.{
  member, layout_for_class_hash, try_argent, new_argent, is_implementation_class_hash, try_braavos,
  find_layout, class_hashes_with_role, ArgentAccount,
}
use krusty_kms.Gateway.System.{Kms}
use krusty_kms.Gateway.AccountClass.{
  ResolvedAccountClass, open_zeppelin, argent, braavos, class_hash, or_invalid, or_unlisted,
  is_braavos, known_class_hashes, enforce_class_hash_allowlist, resolve_braavos_class,
  open_zeppelin_hash, argent_account, braavos_hash, resolve_account_class, resolve_kind,
  no_source_label,
}

abbrev kind_of : ResolvedAccountClass → Kind
kind_of (open_zeppelin _) = Kind.open_zeppelin
kind_of (argent _) = Kind.argent
kind_of (braavos _) = Kind.braavos

-- An address of the class can be computed and deployed: the layout of an Argent account is the one of
-- its class, and a Braavos account is not of an implementation class.
abbrev IsDerivable : ResolvedAccountClass → Type 0
IsDerivable (open_zeppelin _) = Unit
IsDerivable (argent account) = layout_for_class_hash account.class_hash ≡ some account.layout
IsDerivable (braavos hash) = is_implementation_class_hash hash ≡ false

-- The class hash is the given one, if one is given, and it is then listed or the list is waived.
abbrev IsGiven : Kms → Kind → Option FeltHex → Bool → ChainId → FeltHex → Type 0
IsGiven kms kind given allow_unlisted chain_id hash =
    (given ≡ none)
    ⊎ ((given ≡ some hash)
        × ((allow_unlisted ≡ true) ⊎ (member hash (known_class_hashes kms kind chain_id) ≡ true)))

pub record IsAllowed (kms : Kms) (spec : AccountClassSpec) (chain_id : ChainId)
    (account_class : ResolvedAccountClass) : Type 0 where
  pub same_kind : kind_of account_class ≡ spec.kind
  pub given :
      IsGiven kms spec.kind spec.class_hash spec.allow_unlisted_class_hash chain_id
        (class_hash account_class)
  pub derivable : IsDerivable account_class

or-true : (a b : Bool) → (a || b) ≡ true → (a ≡ true) ⊎ (b ≡ true)
or-true true b h = inl refl
or-true false b h = inr h

not-true : (b : Bool) → not (true && b) ≡ true → b ≡ false
not-true true h = cc h
not-true false h = refl

or_invalid-some : {A : Type 0} (o : Option A) {a : A} → or_invalid o ≡ returns a → o ≡ some a
or_invalid-some none h = cc h
or_invalid-some (some a) h = cc h

returns_injective :
    {A : Type 0} {a b : A} (h : ◌≡◌ {A = GatewayResult A} (returns a) (returns b)) → a ≡ b
returns_injective h = cc h

module _ (kms : Kms) where
  listed :
      (hash : FeltHex) (kind : Kind) (chain_id : ChainId) (allow_unlisted : Bool) {u : Unit {0}}
      → enforce_class_hash_allowlist kms hash kind chain_id allow_unlisted ≡ returns u
      → (not (is_braavos kind && is_implementation_class_hash hash) ≡ true)
        × ((allow_unlisted ≡ true) ⊎ (member hash (known_class_hashes kms kind chain_id) ≡ true))
  unfolding enforce_class_hash_allowlist
  listed hash kind chain_id allow_unlisted h =
      let (_, first, second) = >>=-eq-returns _ _ h in
      (check-eq-returns _ _ first, or-true allow_unlisted _ (check-eq-returns _ _ second))

  unlisted :
      (hash : FeltHex) (allow_unlisted : Bool) {found : FeltHex}
      → or_unlisted kms hash allow_unlisted (try_braavos hash) ≡ returns found
      → hash ≡ found
  unfolding try_braavos
  unlisted hash allow_unlisted h = ground arith

  argent-layout :
      (hash : FeltHex) {account : ArgentAccount}
      → try_argent hash ≡ some account
      → (hash ≡ account.class_hash)
        × (layout_for_class_hash account.class_hash ≡ some account.layout)
  unfolding try_argent
  argent-layout hash h = (ground arith, ground arith)

  open_zeppelin-IsAllowed :
      (given : Option FeltHex) (label : Option (List ℕ)) (chain_id : ChainId)
      (allow_unlisted : Bool) {hash : FeltHex}
      → open_zeppelin_hash kms given label chain_id allow_unlisted ≡ returns hash
      → IsGiven kms Kind.open_zeppelin given allow_unlisted chain_id hash
  unfolding open_zeppelin_hash
  open_zeppelin-IsAllowed none label chain_id allow_unlisted h = inl refl
  open_zeppelin-IsAllowed (some hash) label chain_id allow_unlisted h =
      let (_, first, second) = >>=-eq-returns _ _ h in
      let same : hash ≡ _ = returns_injective second in
      inr (
        ap some same,
        rw (← same) ((listed hash Kind.open_zeppelin chain_id allow_unlisted first).1),
      )

  argent-IsAllowed :
      (given : Option FeltHex) (chain_id : ChainId) (allow_unlisted : Bool)
      {account : ArgentAccount}
      → argent_account kms given chain_id allow_unlisted ≡ returns account
      → IsGiven kms Kind.argent given allow_unlisted chain_id account.class_hash
        × (layout_for_class_hash account.class_hash ≡ some account.layout)
  unfolding argent_account layout_for_class_hash find_layout
  argent-IsAllowed none chain_id allow_unlisted h =
      let same : new_argent ≡ _ = returns_injective h in
      (inl refl, subst (λ a. layout_for_class_hash a.class_hash ≡ some a.layout) same refl)
  argent-IsAllowed (some hash) chain_id allow_unlisted h =
      let (_, first, second) = >>=-eq-returns _ _ h in
      let (same, layout) = argent-layout hash (or_invalid-some _ second) in
      (
        inr (ap some same, rw (← same) ((listed hash Kind.argent chain_id allow_unlisted first).1)),
        layout,
      )

  braavos-IsAllowed :
      (given : Option FeltHex) (chain_id : ChainId) (allow_unlisted : Bool) {hash : FeltHex}
      → braavos_hash kms given chain_id allow_unlisted ≡ returns hash
      → IsGiven kms Kind.braavos given allow_unlisted chain_id hash
        × (is_implementation_class_hash hash ≡ false)
  unfolding braavos_hash resolve_braavos_class is_implementation_class_hash member
      class_hashes_with_role
  braavos-IsAllowed none chain_id allow_unlisted h =
      (inl refl, subst (λ c. is_implementation_class_hash c ≡ false) (returns_injective h) refl)
  braavos-IsAllowed (some hash) chain_id allow_unlisted h =
      let (_, first, second) = >>=-eq-returns _ _ h in
      let same = unlisted hash allow_unlisted second in
      let (known, waived) = listed hash Kind.braavos chain_id allow_unlisted first in
      (inr (ap some same, rw (← same) waived), rw (← same) (not-true _ known))

  Resolved : Kind → Option FeltHex → Bool → ChainId → ResolvedAccountClass → Type 0
  Resolved kind given allow_unlisted chain_id account_class =
      (kind_of account_class ≡ kind)
      × IsGiven kms kind given allow_unlisted chain_id (class_hash account_class)
      × IsDerivable account_class

  resolve_kind-Resolved :
      (kind : Kind) (given : Option FeltHex) (label : Option (List ℕ)) (allow_unlisted : Bool)
      (chain_id : ChainId) {account_class : ResolvedAccountClass}
      → resolve_kind kms kind given label allow_unlisted chain_id ≡ returns account_class
      → Resolved kind given allow_unlisted chain_id account_class
  unfolding Resolved
  resolve_kind-Resolved Kind.open_zeppelin given label allow_unlisted chain_id h =
      let (hash, first, second) = >>=-eq-returns _ _ h in
      subst (Resolved Kind.open_zeppelin given allow_unlisted chain_id) (returns_injective second)
        (refl, open_zeppelin-IsAllowed given label chain_id allow_unlisted first, tt)
  resolve_kind-Resolved Kind.argent given label allow_unlisted chain_id h =
      let (_, _, rest) = >>=-eq-returns (no_source_label label) _ h in
      let (account, first, second) = >>=-eq-returns _ _ rest in
      let (is_given, derivable) = argent-IsAllowed given chain_id allow_unlisted first in
      subst (Resolved Kind.argent given allow_unlisted chain_id) (returns_injective second)
        (refl, is_given, derivable)
  resolve_kind-Resolved Kind.braavos given label allow_unlisted chain_id h =
      let (_, _, rest) = >>=-eq-returns (no_source_label label) _ h in
      let (hash, first, second) = >>=-eq-returns _ _ rest in
      let (is_given, derivable) = braavos-IsAllowed given chain_id allow_unlisted first in
      subst (Resolved Kind.braavos given allow_unlisted chain_id) (returns_injective second)
        (refl, is_given, derivable)

  -- A class that `resolve_account_class` returns for a request is of the requested kind, and an
  -- address can be derived from it: the layout of an Argent class is the known one, whatever the
  -- override says, and a Braavos class is no known implementation class. If the request gives a
  -- class hash, it is the hash of the class, and either it is on the list of its kind and chain or
  -- the request waives the list.
  pub resolve_account_class-IsAllowed :
      (spec : AccountClassSpec) (chain_id : ChainId) {account_class : ResolvedAccountClass}
      → resolve_account_class kms spec chain_id ≡ returns account_class
      → IsAllowed kms spec chain_id account_class
  unfolding resolve_account_class Resolved
  resolve_account_class-IsAllowed spec chain_id h =
      let (same_kind, given, derivable) =
        resolve_kind-Resolved spec.kind spec.class_hash spec.source_label
          spec.allow_unlisted_class_hash chain_id h in
      record { same_kind = same_kind; given = given; derivable = derivable }
