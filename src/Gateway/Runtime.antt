-- ===== src/Gateway/Runtime.antt =====
-- crates/gateway/src/gateway.rs: the gateway's state and the tracking of
-- operations. A method is a function of the state; `none` is a run that does not end. The locks are
-- held inside one method call each, so a call is one step.
pub mod Settling
pub mod Handlers
pub mod Returning
use krusty_kms.Prelude.{
  ℕ, ◌+◌, ◌*◌, ◌/◌, ◌%◌, List, [], ◌∷◌, ◌++◌, Option, none, some, Bool, true, false, ltb,
  if◌then◌else◌,
}
use krusty_kms.Domain.Error.{
  GatewayErrorCode as Code, GatewayError, gateway_error, DomainError, DomainResult, GatewayResult,
  fails, returns, map_err,
}
use krusty_kms.Domain.Account.{OperationId, Provenance}
use krusty_kms.Domain.Runtime.{
  OperationKind, derive_account, check_deployment, deploy_account, sign, query_account_snapshot,
  OperationState, queued, running, rejected, OperationStatus,
}
use krusty_kms.Gateway.Cache.{SnapshotCache, SnapshotCacheKey}
use krusty_kms.Gateway.Operations
use krusty_kms.Gateway.Operations.{OperationStore}
use krusty_kms.Gateway.System.{System}

pub record Gateway (E : Type 0) : Type 0 where
  pub outside : E
  pub operations : OperationStore
  pub snapshot_cache : SnapshotCache
  pub snapshot_cache_max_entries : ℕ

unfoldable pub operation_prefix : OperationKind → List ℕ
operation_prefix derive_account = 100 ∷ 101 ∷ 114 ∷ 105 ∷ 118 ∷ 101 ∷ []
operation_prefix check_deployment = 99 ∷ 104 ∷ 101 ∷ 99 ∷ 107 ∷ []
operation_prefix deploy_account = 100 ∷ 101 ∷ 112 ∷ 108 ∷ 111 ∷ 121 ∷ []
operation_prefix sign = 115 ∷ 105 ∷ 103 ∷ 110 ∷ []
operation_prefix query_account_snapshot = 115 ∷ 110 ∷ 97 ∷ 112 ∷ 115 ∷ 104 ∷ 111 ∷ 116 ∷ []

-- `OperationId::new`
unfoldable pub new_operation_id : (List ℕ → Bool) → List ℕ → DomainResult OperationId
new_operation_id is_blank value =
    if is_blank value then fails DomainError.empty_field else returns value

abbrev pub M : Type 0 → Type 0 → Type 0
M E A = Gateway E → Option (A × Gateway E)

-- A result with the status under which the operation is tracked.
pub record GatewayResponse (A : Type 0) : Type 0 where
  pub operation : OperationStatus
  pub value : A

module _ {E : Type 0} where
  abbrev pub pure : {A : Type 0} → A → M E A
  pure a g = some (a, g)

  abbrev pub continue :
      {A B : Type 0} → Option (A × Gateway E) → (A → M E B) → Option (B × Gateway E)
  continue none next = none
  continue (some (a, g)) next = next a g

  infixl 5 ◌>>=◌ ◌>>◌
  unfoldable pub ◌>>=◌ : {A B : Type 0} → M E A → (A → M E B) → M E B
  ◌>>=◌ m next g = continue (m g) next

  abbrev pub ◌>>◌ : {A B : Type 0} → M E A → M E B → M E B
  m >> next = m >>= λ _. next

  -- A call to what lies outside.
  unfoldable pub call : {A : Type 0} → (E → A × E) → M E A
  call f g = let (a, outside) = f g.outside in some (a, record g { outside = outside })

  abbrev pub cases : {A B : Type 0} → GatewayResult A → (GatewayError → M E B) → (A → M E B) → M E B
  cases (fails error) on_error on_value = on_error error
  cases (returns value) on_error on_value = on_value value

  -- `match result { Err(error) => …, Ok(value) => … }`
  unfoldable pub attempt :
      {A B : Type 0} → M E (GatewayResult A) → (GatewayError → M E B) → (A → M E B) → M E B
  attempt m on_error on_value = m >>= λ result. cases result on_error on_value

  -- `?`
  abbrev pub try_call :
      {A B : Type 0} → M E (GatewayResult A) → (A → M E (GatewayResult B)) → M E (GatewayResult B)
  try_call m next = attempt m (λ error. pure (fails error)) next

  module _ (dec : Discrete OperationId) (sys : System E) where
    unfoldable pub record_status : OperationStatus → ℕ → M E (Unit {0})
    record_status status now_ms g =
        some (tt, record g { operations = Operations.insert dec g.operations status now_ms })

    unfoldable pub read_status : OperationId → ℕ → M E (Option OperationStatus)
    read_status id now_ms g =
        let (found, operations) = Operations.get dec g.operations id now_ms in
        some (found, record g { operations = operations })

    unfoldable pub set_operation :
        OperationId → OperationKind → OperationState → Option Provenance → M E OperationStatus
    set_operation id kind state provenance = do
      now_ms ← call sys.now_ms
      record_status (record { id = id; kind = kind; state = state; provenance = provenance }) now_ms
      pure (record { id = id; kind = kind; state = state; provenance = provenance })

    abbrev pub new_id : OperationKind → Option (List ℕ) → GatewayResult OperationId
    new_id kind none = fails (gateway_error Code.internal true)
    new_id kind (some entropy) =
        map_err (λ _. gateway_error Code.internal false)
          (new_operation_id sys.is_blank (operation_prefix kind ++ 45 ∷ sys.hex_encode entropy))

    unfoldable pub begin_operation : OperationKind → M E (GatewayResult OperationStatus)
    begin_operation kind = do
      entropy ← call sys.random_bytes
      cases (new_id kind entropy) (λ error. pure (fails error))
          (λ id. do status ← set_operation id kind queued none; pure (returns status))

    unfoldable pub reject_operation :
        OperationStatus → GatewayError → Option Provenance → M E (Unit {0})
    reject_operation queued_status error provenance = do
      status ← set_operation queued_status.id queued_status.kind (rejected error) provenance
      pure tt

    -- `self.reject_operation(…).await; return Err(error);`
    unfoldable pub refuse :
        {A : Type 0} → OperationStatus → GatewayError → Option Provenance → M E (GatewayResult A)
    refuse queued_status error provenance = do
      reject_operation queued_status error provenance
      pure (fails error)

    -- `let status = self.set_operation(…).await; Ok(GatewayResponse { operation: status, value })`
    unfoldable pub finish :
        {A : Type 0}
        → OperationStatus
        → OperationState
        → Option Provenance
        → A
        → M E (GatewayResult (GatewayResponse A))
    finish queued_status state provenance value = do
      status ← set_operation queued_status.id queued_status.kind state provenance
      pure (returns (record { operation = status; value = value }))

    -- The guard of a request: an error is recorded, and returned.
    abbrev pub require :
        {A B : Type 0}
        → OperationStatus
        → M E (GatewayResult A)
        → Option Provenance
        → (A → M E (GatewayResult B))
        → M E (GatewayResult B)
    require queued_status m provenance next =
        attempt m (λ error. refuse queued_status error provenance) next

    -- The start of every handler: the operation is queued and then running.
    unfoldable pub tracked :
        {A : Type 0}
        → OperationKind
        → (OperationStatus → M E (GatewayResult A))
        → M E (GatewayResult A)
    tracked kind body = try_call (begin_operation kind) (λ queued_status. do
      status ← set_operation queued_status.id queued_status.kind running none
      body queued_status)

    -- `Gateway::operation_status`, with none for `NotFound`.
    unfoldable pub operation_status : OperationId → M E (Option OperationStatus)
    operation_status id = do now_ms ← call sys.now_ms; read_status id now_ms
