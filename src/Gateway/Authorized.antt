-- ===== src/Gateway/Authorized.antt =====
-- What a request has to be for crates/gateway/src/signing.rs and accounts.rs to answer it.
pub mod Snapshots
pub mod Refusals
pub mod Deployments
use krusty_kms.Prelude.{
  ℕ, ◌≤◌, ◌<◌, ◌≡◌, refl, ◌∙◌, Option, none, some, Bool, true, false, length, arith, not, ltb, ◌==◌,
  ==→eq,
}
use krusty_kms.Domain.Error.{
  DomainError, Fallible, GatewayError, GatewayResult, DomainResult, fails, returns, map_err, check,
  check-eq-returns, ◌>>=◌, ◌>>◌,
}
use krusty_kms.Domain.Account.{
  ChainId, mainnet, sepolia, same_chain, OperationId, Provenance, SecretRef, KeyDomain,
  starknet_account, tongo_account, nostr_event, DerivationPath, FeltHex, expected_coin_type,
  validate_for, DerivationRequest, validate_derivation, AccountDescriptor, open_zeppelin,
  AccountClassKind, argent, braavos,
}
use krusty_kms.Domain.Runtime.{
  DeployMode, submit_only, wait_for_acceptance, DeployAccountRequest, completed, submitted,
  accepted,
}
use krusty_kms.Domain.Signing.{
  SignRequest, stark_hash, stark_raw_message, nostr_event_id, nostr_raw_message, SignResult,
  StarkKeyDomain, starknet, tongo,
}
use krusty_kms.Domain.Signing
use krusty_kms.Gateway.Errors.{map_domain_error}
use krusty_kms.Gateway.System
use krusty_kms.Gateway.System.{System, DeployExecution}
use krusty_kms.Gateway.Validation.{
  ensure_chain_matches, validate_wait_mode, max_wait_timeout_ms, min_wait_poll_interval_ms,
}
use krusty_kms.Gateway.Runtime.{Gateway, GatewayResponse, M}
use krusty_kms.Gateway.Accounts.{
  derive_account_descriptor, conclude, deploy, is_starknet, is_open_zeppelin,
}
use krusty_kms.Gateway.Signing.{sign_provenance}

pub same_chain-eq : (a b : ChainId) → same_chain a b ≡ true → a ≡ b
same_chain-eq mainnet mainnet h = refl
same_chain-eq sepolia sepolia h = refl
same_chain-eq mainnet sepolia h = cc
same_chain-eq sepolia mainnet h = cc

pub ensure_chain-eq :
    (configured chain_id : ChainId) {u : Unit {0}}
    → ensure_chain_matches configured chain_id ≡ returns u
    → chain_id ≡ configured
unfolding ensure_chain_matches
ensure_chain-eq configured chain_id h = same_chain-eq chain_id configured (check-eq-returns _ _ h)

pub map_err-eq-returns :
    {E F A : Type 0} (f : E → F) (result : Fallible E A) {a : A}
    → map_err f result ≡ returns a
    → result ≡ returns a
map_err-eq-returns f (fails e) h = cc
map_err-eq-returns f (returns a) h = cc

pub coin_type-eq :
    (path : DerivationPath) (domain : KeyDomain) {u : Unit {0}}
    → validate_for path domain ≡ returns u
    → path.coin_type ≡ expected_coin_type domain
unfolding validate_for
coin_type-eq path domain h = ==→eq _ _ (check-eq-returns _ _ h)

-- The registered coin type of the domain, and the domain that is attested.
abbrev pub CoinType : StarkKeyDomain → ℕ → Type 0
CoinType starknet coin_type = coin_type ≡ 9004
CoinType tongo coin_type = coin_type ≡ 5454

abbrev pub IsDomain : StarkKeyDomain → KeyDomain → Type 0
IsDomain starknet domain = domain ≡ starknet_account
IsDomain tongo domain = domain ≡ tongo_account

-- The path belongs to the domain of the key, a chain that is named is the gateway's, a raw Stark hash
-- or message has the caller's consent, and a Nostr event id has 32 bytes.
abbrev pub Authorized : ChainId → SignRequest → Type 0
Authorized configured (stark_hash r) =
    CoinType r.key_domain r.derivation_path.coin_type
    × (r.chain_id ≡ configured)
    × (r.allow_raw_stark_hash ≡ true)
Authorized configured (stark_raw_message r) =
    CoinType r.key_domain r.derivation_path.coin_type × (r.allow_raw_stark_hash ≡ true)
Authorized configured (nostr_event_id r) =
    (r.derivation_path.coin_type ≡ 1237) × (length r.event_id ≡ 32)
Authorized configured (nostr_raw_message r) = r.derivation_path.coin_type ≡ 1237

-- What a response attests: for a Stark hash its chain, domain and path, for the others nothing.
abbrev pub Attested : SignRequest → Option Provenance → Type 0
Attested (stark_hash r) provenance =
    (domain : KeyDomain) × IsDomain r.key_domain domain
    × (provenance
        ≡ some (record {
          chain_id = r.chain_id;
          key_domain = domain;
          derivation_path = r.derivation_path;
          class_hash = none;
        }))
Attested (stark_raw_message r) provenance = provenance ≡ none
Attested (nostr_event_id r) provenance = provenance ≡ none
Attested (nostr_raw_message r) provenance = provenance ≡ none

module _ {E : Type 0} (dec : Discrete OperationId) (sys : System E) where
  -- The response attests the request's provenance.
  abbrev Attests : SignRequest → GatewayResponse SignResult → Type 0
  Attests request response = response.operation.provenance ≡ sign_provenance request
