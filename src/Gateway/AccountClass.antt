-- ===== src/Gateway/AccountClass.antt =====
-- crates/gateway/src/account_class.rs: account classes, and the allowlist of their class hashes.
-- `map_kms_error` does not read the message of an `InvalidClassHash`.
pub mod Allowed
use krusty_kms.Prelude.{
  ℕ, List, [], ◌∷◌, ◌++◌, Option, none, some, Bool, true, false, not, ◌&&◌, ◌||◌, if◌then◌else◌,
}
use krusty_kms.Common.Error.{KmsError}
use krusty_kms.Domain.Error.{
  GatewayErrorCode as Code, gateway_error, GatewayError, GatewayResult, fails, returns, check,
  map_err, ◌>>=◌, ◌>>◌,
}
use krusty_kms.Domain.Account.{
  ChainId, mainnet, sepolia, same_chain, FeltHex, AccountClassKind as Kind, AccountClassSpec,
}
use krusty_kms.Kms.AccountClass.{
  member, ArgentAccount, argent_known_class_hashes, try_argent, new_argent, constructor_calldata,
  deployment_class_hashes, is_implementation_class_hash, try_braavos, braavos_class_hash,
}
use krusty_kms.Gateway.Errors.{KmsResult, map_kms_error}
use krusty_kms.Gateway.System.{Kms}

-- An OpenZeppelin or a Braavos account is its class hash.
pub data ResolvedAccountClass : Type 0 where
  open_zeppelin braavos : FeltHex → ResolvedAccountClass
  argent : ArgentAccount → ResolvedAccountClass

abbrev pub class_hash : ResolvedAccountClass → FeltHex
class_hash (open_zeppelin hash) = hash
class_hash (argent account) = account.class_hash
class_hash (braavos hash) = hash

abbrev pub build_constructor_calldata : ResolvedAccountClass → FeltHex → List FeltHex
build_constructor_calldata (open_zeppelin _) key = key ∷ []
build_constructor_calldata (argent account) key = constructor_calldata account.layout key
build_constructor_calldata (braavos _) key = key ∷ []

abbrev pub invalid_class_hash : GatewayError
invalid_class_hash = gateway_error Code.invalid_class_hash false

abbrev pub or_invalid : {A : Type 0} → Option A → GatewayResult A
or_invalid none = fails (map_kms_error (KmsError.invalid_class_hash, []))
or_invalid (some a) = returns a

-- Pushes what is known, unless it is there.
abbrev push_new : List ℕ → KmsResult FeltHex → List ℕ
push_new hashes (fails _) = hashes
push_new hashes (returns hash) = if member hash hashes then hashes else hashes ++ (hash ∷ [])

abbrev pub is_braavos : Kind → Bool
is_braavos Kind.braavos = true
is_braavos _ = false

abbrev pub no_source_label : Option (List ℕ) → GatewayResult (Unit {0})
no_source_label none = returns tt
no_source_label (some _) = fails (gateway_error Code.unsupported_account_class false)

module _ (kms : Kms) where
  abbrev push_peer : ChainId → ChainId → List ℕ → List ℕ
  push_peer chain_id peer hashes =
      if same_chain peer chain_id then hashes else push_new hashes (kms.oz_latest peer)

  unfoldable pub known_class_hashes : Kind → ChainId → List ℕ
  known_class_hashes Kind.open_zeppelin chain_id =
      push_peer chain_id mainnet (push_peer chain_id sepolia (push_new [] (kms.oz_latest chain_id)))
  known_class_hashes Kind.argent chain_id = argent_known_class_hashes
  known_class_hashes Kind.braavos chain_id = deployment_class_hashes

  unfoldable pub enforce_class_hash_allowlist :
      FeltHex → Kind → ChainId → Bool → GatewayResult (Unit {0})
  enforce_class_hash_allowlist hash kind chain_id allow_unlisted = do
    check (not (is_braavos kind && is_implementation_class_hash hash)) invalid_class_hash
    check (allow_unlisted || member hash (known_class_hashes kind chain_id)) invalid_class_hash

  -- What `BraavosAccount::try_with_class_hash` refuses, the override may still allow.
  abbrev pub or_unlisted : FeltHex → Bool → Option FeltHex → GatewayResult FeltHex
  or_unlisted hash allow_unlisted (some account) = returns account
  or_unlisted hash allow_unlisted none =
      if allow_unlisted && not (is_implementation_class_hash hash)
      then returns hash
      else or_invalid none

  unfoldable pub resolve_braavos_class : FeltHex → ChainId → Bool → GatewayResult FeltHex
  resolve_braavos_class hash chain_id allow_unlisted =
      enforce_class_hash_allowlist hash Kind.braavos chain_id allow_unlisted
      >> or_unlisted hash allow_unlisted (try_braavos hash)

  unfoldable pub open_zeppelin_hash :
      Option FeltHex → Option (List ℕ) → ChainId → Bool → GatewayResult FeltHex
  open_zeppelin_hash (some hash) _ chain_id allow_unlisted =
      enforce_class_hash_allowlist hash Kind.open_zeppelin chain_id allow_unlisted >> returns hash
  open_zeppelin_hash none (some version) chain_id _ =
      map_err map_kms_error (kms.oz_from_manifest chain_id version)
  open_zeppelin_hash none none chain_id _ = map_err map_kms_error (kms.oz_latest chain_id)

  unfoldable pub argent_account : Option FeltHex → ChainId → Bool → GatewayResult ArgentAccount
  argent_account (some hash) chain_id allow_unlisted =
      enforce_class_hash_allowlist hash Kind.argent chain_id allow_unlisted
      >> or_invalid (try_argent hash)
  argent_account none _ _ = returns new_argent

  unfoldable pub braavos_hash : Option FeltHex → ChainId → Bool → GatewayResult FeltHex
  braavos_hash (some hash) chain_id allow_unlisted =
      resolve_braavos_class hash chain_id allow_unlisted
  braavos_hash none _ _ = returns braavos_class_hash

  abbrev pub resolve_kind :
      Kind → Option FeltHex → Option (List ℕ) → Bool → ChainId → GatewayResult ResolvedAccountClass
  resolve_kind Kind.open_zeppelin given source_label allow_unlisted chain_id = do
    hash ← open_zeppelin_hash given source_label chain_id allow_unlisted
    returns (open_zeppelin hash)
  resolve_kind Kind.argent given source_label allow_unlisted chain_id = do
    no_source_label source_label
    account ← argent_account given chain_id allow_unlisted
    returns (argent account)
  resolve_kind Kind.braavos given source_label allow_unlisted chain_id = do
    no_source_label source_label
    hash ← braavos_hash given chain_id allow_unlisted
    returns (braavos hash)

  unfoldable pub resolve_account_class :
      AccountClassSpec → ChainId → GatewayResult ResolvedAccountClass
  resolve_account_class spec chain_id =
      resolve_kind spec.kind spec.class_hash spec.source_label spec.allow_unlisted_class_hash
        chain_id

  abbrev pub calculate_address : ResolvedAccountClass → FeltHex → FeltHex → KmsResult FeltHex
  calculate_address account_class key salt =
      kms.calculate_contract_address salt (class_hash account_class)
        (build_constructor_calldata account_class key) 0
