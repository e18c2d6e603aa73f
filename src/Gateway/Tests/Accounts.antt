-- ===== src/Gateway/Tests/Accounts.antt =====
-- Account classes against a manifest with one OpenZeppelin class.
use krusty_kms.Prelude.{◌≡◌, refl, none, some, Bool, true, false}
use krusty_kms.Domain.Error.{fails, returns}
use krusty_kms.Domain.Account.{FeltHex, mainnet, AccountClassKind as Kind, AccountClassSpec}
use krusty_kms.Kms.AccountClass.{
  member, find_layout, layout_for_class_hash, try_argent, owner_guardian_felts,
  argent_class_hash_v031, argent_known_class_hashes, is_implementation_class_hash,
  class_hashes_with_role, legacy_class_hash,
}
use krusty_kms.Gateway.AccountClass.{
  ResolvedAccountClass, argent, known_class_hashes, enforce_class_hash_allowlist,
  resolve_braavos_class, argent_account, braavos_hash, resolve_account_class, invalid_class_hash,
}
use krusty_kms.Gateway.AccountClass.Allowed.{IsAllowed, resolve_account_class-IsAllowed}
use krusty_kms.Gateway.Tests.Requests.{plain_kms}

-- What a resolution is made of.
resolving : Unit {0}
unfolding resolve_account_class argent_account braavos_hash resolve_braavos_class
    enforce_class_hash_allowlist known_class_hashes argent_known_class_hashes member try_argent
    layout_for_class_hash find_layout is_implementation_class_hash class_hashes_with_role
resolving = tt

abbrev given : Kind → FeltHex → Bool → AccountClassSpec
given kind hash allow_unlisted = record {
  kind = kind;
  class_hash = some hash;
  source_label = none;
  allow_unlisted_class_hash = allow_unlisted;
}

abbrev legacy_argent : ResolvedAccountClass
legacy_argent =
    argent (record { class_hash = argent_class_hash_v031; layout = owner_guardian_felts })

listed :
    resolve_account_class plain_kms (given Kind.argent argent_class_hash_v031 false) mainnet
    ≡ returns legacy_argent
unfolding resolving
listed = refl

-- No override makes an implementation class fix an address.
implementation_refused :
    resolve_account_class plain_kms (given Kind.braavos legacy_class_hash true) mainnet
    ≡ fails invalid_class_hash
unfolding resolving
implementation_refused = refl

resolve_account_class-IsAllowed_example :
    IsAllowed plain_kms (given Kind.argent argent_class_hash_v031 false) mainnet legacy_argent
resolve_account_class-IsAllowed_example =
    resolve_account_class-IsAllowed plain_kms (given Kind.argent argent_class_hash_v031 false)
      mainnet listed
