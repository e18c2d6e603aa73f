-- ===== src/Gateway/Signing.antt =====
-- crates/gateway/src/signing.rs: the handler that signs for the Stark and Nostr domains.
use krusty_kms.Prelude.{ℕ, List, Option, none, some}
use krusty_kms.Domain.Error.{GatewayResult, returns, map_err}
use krusty_kms.Domain.Account.{
  OperationId, Provenance, ChainId, SecretRef, FeltHex, KeyDomain, DerivationPath,
}
use krusty_kms.Domain.Runtime.{OperationStatus, completed}
use krusty_kms.Domain.Runtime
use krusty_kms.Domain.Signing.{
  SignRequest, stark_hash, stark_raw_message, nostr_event_id, nostr_raw_message, SignResult,
  stark_ecdsa, nostr_bip340, RawMessagePayload, hex, utf8, validate_sign, stark_key_domain,
  to_array,
}
use krusty_kms.Domain.Signing
use krusty_kms.Gateway.Errors.{map_kms_error, map_domain_error}
use krusty_kms.Gateway.System.{System}
use krusty_kms.Gateway.Validation.{ensure_chain_matches}
use krusty_kms.Gateway.Runtime.{GatewayResponse, M, pure, call, finish, require, tracked}

unfoldable pub sign_provenance : SignRequest → Option Provenance
sign_provenance request = provenance_of (Signing.chain_id request)
  where
    provenance_of : Option ChainId → Option Provenance
    provenance_of none = none
    provenance_of (some chain_id) = some (record {
      chain_id = chain_id;
      key_domain = Signing.key_domain request;
      derivation_path = Signing.derivation_path request;
      class_hash = none;
    })

abbrev pub payload_bytes : RawMessagePayload → List ℕ
payload_bytes (utf8 value) = value
payload_bytes (hex bytes) = bytes

module _ {E : Type 0} (dec : Discrete OperationId) (sys : System E) where
  unfoldable pub sign_stark :
      OperationStatus
      → Option Provenance
      → SecretRef
      → KeyDomain
      → DerivationPath
      → FeltHex
      → M E (GatewayResult (GatewayResponse SignResult))
  sign_stark queued_status provenance secret key_domain derivation_path hash =
      require dec sys queued_status
        (call (sys.secret_resolver.resolve_private_key secret key_domain derivation_path)) none
        (λ private_key.
          require dec sys queued_status
            (pure (map_err map_kms_error (sys.kms.sign_stark_hash private_key hash))) provenance
            (λ signed.
              finish dec sys queued_status completed provenance
                (stark_ecdsa signed.public_key signed.r signed.s)))

  unfoldable pub sign_payload :
      OperationStatus → SignRequest → M E (GatewayResult (GatewayResponse SignResult))
  sign_payload queued_status (stark_hash r) =
      sign_stark queued_status (sign_provenance (stark_hash r)) r.secret
        (stark_key_domain r.key_domain) r.derivation_path r.hash
  sign_payload queued_status (stark_raw_message r) =
      sign_stark queued_status (sign_provenance (stark_raw_message r)) r.secret
        (stark_key_domain r.key_domain) r.derivation_path r.message
  sign_payload queued_status (nostr_event_id r) =
      require dec sys queued_status
        (call (sys.secret_resolver.resolve_nostr_private_key r.secret r.derivation_path)) none
        (λ private_key.
          require dec sys queued_status (pure (map_err map_domain_error (to_array 32 r.event_id)))
            none
            (λ event_id.
              require dec sys queued_status
                (pure (map_err map_kms_error (sys.kms.sign_nostr_event_id private_key event_id)))
                none
                (λ signed.
                  finish dec sys queued_status completed none
                    (nostr_bip340 signed.public_key signed.signature))))
  sign_payload queued_status (nostr_raw_message r) =
      require dec sys queued_status
        (call (sys.secret_resolver.resolve_nostr_private_key r.secret r.derivation_path)) none
        (λ private_key.
          require dec sys queued_status
            (pure (
              map_err map_kms_error
                (sys.kms.sign_nostr_message private_key (payload_bytes r.payload))))
            none
            (λ signed.
              finish dec sys queued_status completed none
                (nostr_bip340 signed.public_key signed.signature)))

  -- The request's chain, if it names one.
  abbrev pub chain_allowed : Option ChainId → GatewayResult (Unit {0})
  chain_allowed none = returns tt
  chain_allowed (some chain_id) = ensure_chain_matches sys.backend.chain_id chain_id

  -- `Gateway::sign`
  unfoldable pub sign_request : SignRequest → M E (GatewayResult (GatewayResponse SignResult))
  sign_request request = tracked dec sys Runtime.OperationKind.sign (λ queued_status.
      require dec sys queued_status (pure (map_err map_domain_error (validate_sign request))) none
        (λ _.
          require dec sys queued_status (pure (chain_allowed (Signing.chain_id request))) none
            (λ _. sign_payload queued_status request)))
