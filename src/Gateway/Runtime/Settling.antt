-- ===== src/Gateway/Runtime/Settling.antt =====
-- The calls of crates/gateway/src/gateway.rs that track an operation, and the rules by which a handler
-- that is made of them is followed to its end.
use krusty_kms.Prelude.{
  ℕ, ◌+◌, ◌-◌, ◌≤◌, ◌<◌, ◌≡◌, refl, ◌∙◌, ap, subst, Option, some, Bool, true, false, arith,
}
use krusty_kms.Gateway.Clock.{u64_max}
use krusty_kms.Domain.Error.{GatewayError, GatewayResult, fails, returns}
use krusty_kms.Domain.Account.{OperationId, Provenance}
use krusty_kms.Domain.Runtime.{
  OperationKind, OperationState, queued, running, completed, expired, submitted, accepted, rejected,
  OperationStatus,
}
use krusty_kms.Gateway.Operations.{is_expired, insert, get}
use krusty_kms.Gateway.Operations.Retention.{IsValid}
use krusty_kms.Gateway.Operations.Tracking.{
  insert-IsValid, get-insert, insert_retention, insert_revision, shown,
}
use krusty_kms.Gateway.Cache.{SnapshotCacheKey}
use krusty_kms.Gateway.Cache.Bounded.{IsBounded}
use krusty_kms.Gateway.System.{System}
use krusty_kms.Gateway.Runtime.{
  Gateway, GatewayResponse, M, pure, ◌>>=◌, call, cases, attempt, record_status, set_operation,
}

-- The states that an operation ends in when its handler succeeds.
abbrev pub is_final : OperationState → Bool
is_final completed = true
is_final (submitted tx_hash) = true
is_final (accepted tx_hash) = true
is_final queued = false
is_final running = false
is_final expired = false
is_final (rejected error) = false

pub final_active : (state : OperationState) → is_final state ≡ true → is_expired state ≡ false
final_active expired h = cc
final_active completed h = refl
final_active (submitted tx_hash) h = refl
final_active (accepted tx_hash) h = refl
final_active queued h = refl
final_active running h = refl
final_active (rejected error) h = refl

shown_young :
    (ttl_ms : ℕ) (status : OperationStatus) (at_ms now_ms : ℕ)
    → now_ms - at_ms ≤ ttl_ms
    → shown ttl_ms status at_ms now_ms ≡ status
shown_young ttl_ms status at_ms now_ms h = ground arith

module _ {E : Type 0} (dec : Discrete OperationId) (dec_key : Discrete SnapshotCacheKey) where
  -- A well-formed gateway that can write `k` more statuses before the revision counter ends.
  pub record Ready (k : ℕ) (g : Gateway E) : Type 0 where
    pub store : IsValid dec g.operations
    pub room : g.operations.next_revision + k ≤ u64_max
    pub cache : IsBounded dec_key g.snapshot_cache_max_entries g.snapshot_cache
    pub positive : 0 < g.snapshot_cache_max_entries

  -- The last that is done outside is to read the clock, and from that reading on, until the time to
  -- live is over, the status is what a query for its id gets.
  abbrev pub Answered : System E → Gateway E → OperationStatus → Type 0
  Answered sys g status =
      (before : E) × (g.outside ≡ (sys.now_ms before).1)
      × ((now_ms : ℕ)
          → now_ms - (sys.now_ms before).0 ≤ g.operations.retention.ttl_ms
          → (get dec g.operations status.id now_ms).0 ≡ some status)

  -- How the operation of a call stands after the call: a response carries its status, which is final,
  -- and an error is recorded with it.
  abbrev pub Ending :
      {A : Type 0}
      → System E
      → OperationId
      → OperationKind
      → GatewayResult (GatewayResponse A)
      → Gateway E
      → Type 0
  Ending sys id kind (returns response) g =
      (response.operation.id ≡ id)
      × (response.operation.kind ≡ kind)
      × (is_final response.operation.state ≡ true)
      × Answered sys g response.operation
  Ending sys id kind (fails error) g =
      (provenance : Option Provenance) × Answered sys g
        (record { id = id; kind = kind; state = rejected error; provenance = provenance })

  -- A part of a handler that is left with writing the last status ends, and writes it; the calls after
  -- it have the revisions that `left` counts.
  abbrev pub Settles :
      {A : Type 0}
      → System E
      → ℕ
      → OperationStatus
      → M E (GatewayResult (GatewayResponse A))
      → Type 0
  Settles {A} sys left status p =
      (g : Gateway E)
      → Ready (left + 1) g
      → (r : GatewayResult (GatewayResponse A)) × (g' : Gateway E) × (p g ≡ some (r, g'))
        × Ready left g'
        × Ending sys status.id status.kind r g'

  abbrev pub Preserves : {A : Type 0} → ℕ → M E A → Type 0
  Preserves {A} k m =
      (g : Gateway E) → Ready k g → (a : A) × (g' : Gateway E) × (m g ≡ some (a, g')) × Ready k g'

  pub call-Preserves : {A : Type 0} (k : ℕ) (f : E → A × E) → Preserves k (call f)
  unfolding call
  call-Preserves k f g ready = (
    (f g.outside).0,
    record g { outside = (f g.outside).1 },
    refl,
    record {
      store = ready.store;
      room = ready.room;
      cache = ready.cache;
      positive = ready.positive;
    },
  )

  pub pure-Preserves : {A : Type 0} (k : ℕ) (a : A) → Preserves k (pure a)
  pure-Preserves k a g ready = (a, g, refl, ready)

  pub >>=-Preserves :
      {A B : Type 0} (k : ℕ) (m : M E A) (next : A → M E B)
      → Preserves k m
      → ((a : A) → Preserves k (next a))
      → Preserves k (m >>= next)
  unfolding ◌>>=◌
  >>=-Preserves k m next pm pn g ready =
      let (a, g₁, e, ready₁) = pm g ready in
      let (b, g₂, e₂, ready₂) = pn a g₁ ready₁ in (b, g₂, rw e e₂, ready₂)

  cases-Preserves :
      {A B : Type 0} (k : ℕ) (on_error : GatewayError → M E B) (on_value : A → M E B)
      → ((error : GatewayError) → Preserves k (on_error error))
      → ((a : A) → Preserves k (on_value a))
      → (result : GatewayResult A) → Preserves k (cases result on_error on_value)
  cases-Preserves k on_error on_value pe pv (fails error) = pe error
  cases-Preserves k on_error on_value pe pv (returns a) = pv a

  pub attempt-Preserves :
      {A B : Type 0} (k : ℕ) (m : M E (GatewayResult A)) (on_error : GatewayError → M E B)
      (on_value : A → M E B)
      → Preserves k m
      → ((error : GatewayError) → Preserves k (on_error error))
      → ((a : A) → Preserves k (on_value a))
      → Preserves k (attempt m on_error on_value)
  unfolding attempt
  attempt-Preserves k m on_error on_value pm pe pv =
      >>=-Preserves k m _ pm (cases-Preserves k on_error on_value pe pv)

  pub >>=-Settles :
      {A B : Type 0} (sys : System E) (left : ℕ) (status : OperationStatus) (m : M E A)
      (next : A → M E (GatewayResult (GatewayResponse B)))
      → Preserves (left + 1) m
      → ((a : A) → Settles sys left status (next a))
      → Settles sys left status (m >>= next)
  unfolding ◌>>=◌
  >>=-Settles sys left status m next pm pn g ready =
      let (a, g₁, e, ready₁) = pm g ready in
      let (r, g₂, e₂, ready₂, rest) = pn a g₁ ready₁ in (r, g₂, rw e e₂, ready₂, rest)

  cases-Settles :
      {A B : Type 0} (sys : System E) (left : ℕ) (status : OperationStatus)
      (on_error : GatewayError → M E (GatewayResult (GatewayResponse B)))
      (on_value : A → M E (GatewayResult (GatewayResponse B)))
      → ((error : GatewayError) → Settles sys left status (on_error error))
      → ((a : A) → Settles sys left status (on_value a))
      → (result : GatewayResult A) → Settles sys left status (cases result on_error on_value)
  cases-Settles sys left status on_error on_value pe pv (fails error) = pe error
  cases-Settles sys left status on_error on_value pe pv (returns a) = pv a

  pub attempt-Settles :
      {A B : Type 0} (sys : System E) (left : ℕ) (status : OperationStatus)
      (m : M E (GatewayResult A))
      (on_error : GatewayError → M E (GatewayResult (GatewayResponse B)))
      (on_value : A → M E (GatewayResult (GatewayResponse B)))
      → Preserves (left + 1) m
      → ((error : GatewayError) → Settles sys left status (on_error error))
      → ((a : A) → Settles sys left status (on_value a))
      → Settles sys left status (attempt m on_error on_value)
  unfolding attempt
  attempt-Settles sys left status m on_error on_value pm pe pv =
      >>=-Settles sys left status m _ pm (cases-Settles sys left status on_error on_value pe pv)

  module _ (sys : System E) where
    -- Writing a status that is not `Expired` takes one revision, and the status can be queried.
    pub set_operation-Ready :
        (k : ℕ) (id : OperationId) (kind : OperationKind) (state : OperationState)
        (provenance : Option Provenance)
        → is_expired state ≡ false
        → (g : Gateway E) → Ready (k + 1) g
        → (g' : Gateway E) × (set_operation dec sys id kind state provenance g
            ≡ some (record { id = id; kind = kind; state = state; provenance = provenance }, g'))
          × Ready k g'
          × Answered sys g'
              (record { id = id; kind = kind; state = state; provenance = provenance })
    unfolding set_operation ◌>>=◌ call record_status
    set_operation-Ready k id kind state provenance active g ready =
        let status : OperationStatus = record {
          id = id;
          kind = kind;
          state = state;
          provenance = provenance;
        } in
        let at_ms = (sys.now_ms g.outside).0 in
        let room = ready.room in
        let free : g.operations.next_revision < u64_max = omega arith in
        (
          record g {
            outside = (sys.now_ms g.outside).1;
            operations = insert dec g.operations status at_ms;
          },
          refl,
          record {
            store = insert-IsValid dec g.operations ready.store free status at_ms;
            room = omega (arith, room, insert_revision dec g.operations status at_ms free);
            cache = ready.cache;
            positive = ready.positive;
          },
          (
            g.outside,
            refl,
            λ now_ms young.
                get-insert dec g.operations status at_ms now_ms ready.store free active
                ∙ ap some (
                    shown_young g.operations.retention.ttl_ms status at_ms now_ms (
                      subst (λ r. now_ms - at_ms ≤ r.ttl_ms)
                        (insert_retention dec g.operations status at_ms) young)),
          ),
        )
