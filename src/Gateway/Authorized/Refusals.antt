-- ===== src/Gateway/Authorized/Refusals.antt =====
-- Requests that crates/gateway/src/signing.rs refuses before it asks for a key.
use krusty_kms.Prelude.{◌≡◌, refl, inl, inr, ◌⊎◌}
use krusty_kms.Domain.Error.{DomainError, GatewayError, fails, returns}
use krusty_kms.Domain.Account.{OperationId}
use krusty_kms.Domain.Signing.{SignRequest, validate_sign}
use krusty_kms.Domain.Signing
use krusty_kms.Gateway.System.{System, SecretResolver}
use krusty_kms.Gateway.Runtime.{
  Gateway, ◌>>=◌, attempt, record_status, set_operation, begin_operation, reject_operation, refuse,
  tracked,
}
use krusty_kms.Gateway.Signing.{chain_allowed, sign_request}

module _ {E : Type 0} (dec : Discrete OperationId) (sys : System E) where
  -- The request does not pass its own validation, or names another chain.
  abbrev pub IsRefused : SignRequest → Type 0
  IsRefused request =
      ((error : DomainError) × (validate_sign request ≡ fails error))
      ⊎ ((error : GatewayError) × (validate_sign request ≡ returns tt)
          × (chain_allowed dec sys (Signing.chain_id request) ≡ fails error))

  -- A refused request gets the same reply, and leaves the same gateway and outside world, whatever the
  -- resolver of secrets is: no key is asked for.
  pub sign_request-refused :
      (other : SecretResolver E) (request : SignRequest) (g : Gateway E)
      → IsRefused request
      → sign_request dec sys request g
        ≡ sign_request dec (record sys { secret_resolver = other }) request g
  unfolding sign_request attempt ◌>>=◌ tracked begin_operation refuse reject_operation set_operation
      record_status
  sign_request-refused other request g (inl (error, h)) = rw h refl
  sign_request-refused other request g (inr (error, valid, h)) = rw (valid, h) refl
