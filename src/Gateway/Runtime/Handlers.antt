-- ===== src/Gateway/Runtime/Handlers.antt =====
-- Handlers of the gateway, from the queued operation to its last status: crates/gateway/src/gateway.rs.
use krusty_kms.Prelude.{ℕ, ◌+◌, ◌≤◌, ◌≡◌, refl, Option, none, some, true, inl, inr, ◌⊎◌, arith}
use krusty_kms.Domain.Error.{GatewayError, GatewayResult, fails, returns}
use krusty_kms.Domain.Account.{OperationId, Provenance}
use krusty_kms.Domain.Runtime.{
  OperationKind, OperationState, queued, running, rejected, OperationStatus,
}
use krusty_kms.Gateway.Cache.{SnapshotCacheKey}
use krusty_kms.Gateway.System.{System}
use krusty_kms.Gateway.Runtime.{
  Gateway, GatewayResponse, M, pure, ◌>>=◌, call, cases, attempt, set_operation, new_id,
  begin_operation, reject_operation, refuse, finish, require, tracked,
}
use krusty_kms.Gateway.Runtime.Settling.{
  is_final, final_active, Ready, Answered, Ending, Settles, Preserves, attempt-Settles,
  set_operation-Ready,
}

module _ {E : Type 0} (dec : Discrete OperationId) (dec_key : Discrete SnapshotCacheKey) where
  pub weaken : (j k : ℕ) (g : Gateway E) → k ≤ j → Ready dec dec_key j g → Ready dec dec_key k g
  weaken j k g h ready =
      let room = ready.room in
      record {
        store = ready.store;
        room = omega arith;
        cache = ready.cache;
        positive = ready.positive;
      }

  -- What has become of a call of a handler: the operation of a response is final, and one that
  -- returned an error is recorded as rejected with it, unless no id could be made for it.
  abbrev pub Verdict :
      {A : Type 0}
      → System E
      → OperationKind
      → Gateway E
      → GatewayResult (GatewayResponse A)
      → Gateway E
      → Type 0
  Verdict sys kind g (returns response) g' =
      (response.operation.kind ≡ kind)
      × (is_final response.operation.state ≡ true)
      × Answered dec dec_key sys g' response.operation
  Verdict sys kind g (fails error) g' =
      (g'.operations ≡ g.operations)
      ⊎ ((status : OperationStatus) × (status.kind ≡ kind)
          × (status.state ≡ rejected error)
          × Answered dec dec_key sys g' status)

  -- A handler ends, leaves a well-formed gateway, and its operation can be queried.
  abbrev pub Handles :
      {A : Type 0} → System E → ℕ → OperationKind → M E (GatewayResult (GatewayResponse A)) → Type 0
  Handles {A} sys left kind p =
      (g : Gateway E)
      → Ready dec dec_key (left + 3) g
      → (r : GatewayResult (GatewayResponse A)) × (g' : Gateway E) × (p g ≡ some (r, g'))
        × Ready dec dec_key left g'
        × Verdict sys kind g r g'

  module _ (left : ℕ) (sys : System E) (status : OperationStatus) where
    pub refuse-Settles :
        {A : Type 0} (error : GatewayError) (provenance : Option Provenance)
        → Settles dec dec_key {A = A} sys left status (refuse dec sys status error provenance)
    unfolding refuse reject_operation ◌>>=◌
    refuse-Settles error provenance g ready =
        let (g', e, after, answered) =
          set_operation-Ready dec dec_key sys left status.id status.kind (rejected error) provenance
            refl g ready in
        (fails error, g', rw e refl, after, (provenance, answered))

    pub finish-Settles :
        {A : Type 0} (state : OperationState) (provenance : Option Provenance) (value : A)
        → is_final state ≡ true
        → Settles dec dec_key sys left status (finish dec sys status state provenance value)
    unfolding finish ◌>>=◌
    finish-Settles state provenance value final g ready =
        let (g', e, after, answered) =
          set_operation-Ready dec dec_key sys left status.id status.kind state provenance
            (final_active state final) g ready in
        let final_status : OperationStatus = record {
          id = status.id;
          kind = status.kind;
          state = state;
          provenance = provenance;
        } in
        (
          returns (record { operation = final_status; value = value }),
          g',
          rw e refl,
          after,
          (refl, refl, final, answered),
        )

    pub require-Settles :
        {A B : Type 0} (m : M E (GatewayResult A)) (provenance : Option Provenance)
        (next : A → M E (GatewayResult (GatewayResponse B)))
        → Preserves dec dec_key (left + 1) m
        → ((a : A) → Settles dec dec_key sys left status (next a))
        → Settles dec dec_key sys left status (require dec sys status m provenance next)
    require-Settles m provenance next pm pn =
        attempt-Settles dec dec_key sys left status m
          (λ error. refuse dec sys status error provenance) next pm
          (λ error. refuse-Settles error provenance) pn

  module _ (left : ℕ) (sys : System E) where
    Verdict-Ending :
        {A : Type 0} (id : OperationId) (kind : OperationKind) (g g' : Gateway E)
        (r : GatewayResult (GatewayResponse A))
        → Ending dec dec_key sys id kind r g'
        → Verdict sys kind g r g'
    Verdict-Ending id kind g g' (returns response) (_, same, final, answered) =
        (same, final, answered)
    Verdict-Ending id kind g g' (fails error) (provenance, answered) = inr (
      record { id = id; kind = kind; state = rejected error; provenance = provenance },
      refl,
      refl,
      answered,
    )

    -- The handler once its id is made, or could not be made.
    abbrev after_id :
        {A : Type 0}
        → OperationKind
        → (OperationStatus → M E (GatewayResult (GatewayResponse A)))
        → GatewayResult OperationId
        → M E (GatewayResult (GatewayResponse A))
    after_id kind body result =
        attempt
          (cases result (λ error. pure (fails error))
            (λ id. set_operation dec sys id kind queued none >>= λ status. pure (returns status)))
          (λ error. pure (fails error))
          (λ queued_status.
            set_operation dec sys queued_status.id queued_status.kind running none >>= λ status.
            body queued_status)

    after_id-Handles :
        {A : Type 0} (kind : OperationKind)
        (body : OperationStatus → M E (GatewayResult (GatewayResponse A)))
        → ((status : OperationStatus) → Settles dec dec_key sys left status (body status))
        → (g₀ g : Gateway E) → g.operations ≡ g₀.operations
        → Ready dec dec_key (left + 3) g
        → (result : GatewayResult OperationId)
        → (r : GatewayResult (GatewayResponse A)) × (g' : Gateway E) × (after_id kind body result g
            ≡ some (r, g'))
          × Ready dec dec_key left g'
          × Verdict sys kind g₀ r g'
    unfolding ◌>>=◌ attempt
    after_id-Handles kind body settles g₀ g same ready (fails error) =
        (fails error, g, refl, weaken (left + 3) left g (omega arith) ready, inl same)
    after_id-Handles kind body settles g₀ g same ready (returns id) =
        let queued_status : OperationStatus = record {
          id = id;
          kind = kind;
          state = queued;
          provenance = none;
        } in
        let (g₁, e₁, ready₁, _) =
          set_operation-Ready dec dec_key sys (left + 2) id kind queued none refl g
            (weaken (left + 3) (left + 2 + 1) g (omega arith) ready) in
        let (g₂, e₂, ready₂, _) =
          set_operation-Ready dec dec_key sys (left + 1) id kind running none refl g₁
            (weaken (left + 2) (left + 1 + 1) g₁ (omega arith) ready₁) in
        let (r, g₃, e₃, ready₃, outcome) = settles queued_status g₂ ready₂ in
        (r, g₃, rw (e₁, e₂) e₃, ready₃, Verdict-Ending id kind g₀ g₃ r outcome)

    pub tracked-Handles :
        {A : Type 0} (kind : OperationKind)
        (body : OperationStatus → M E (GatewayResult (GatewayResponse A)))
        → ((status : OperationStatus) → Settles dec dec_key sys left status (body status))
        → Handles sys left kind (tracked dec sys kind body)
    unfolding tracked begin_operation ◌>>=◌ attempt call
    tracked-Handles kind body settles g ready =
        let drawn = sys.random_bytes g.outside in
        let g₁ : Gateway E = record g { outside = drawn.1 } in
        after_id-Handles kind body settles g g₁ refl
          (record {
            store = ready.store;
            room = ready.room;
            cache = ready.cache;
            positive = ready.positive;
          })
          (new_id dec sys kind drawn.0)
