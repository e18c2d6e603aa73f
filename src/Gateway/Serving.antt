-- ===== src/Gateway/Serving.antt =====
-- The gateway over a whole run: its construction in crates/gateway/src/gateway.rs, and the requests
-- that crates/oracle/src/handler.rs hands to it, one after the other.
use krusty_kms.Prelude.{
  ℕ, suc, ◌+◌, ◌*◌, ◌<◌, ◌≡◌, refl, List, [], ◌∷◌, Option, some, length, arith,
}
use krusty_kms.Gateway.Clock.{u64_max}
use krusty_kms.Domain.Error.{GatewayResult}
use krusty_kms.Domain.Account.{
  OperationId, DerivationRequest, AccountDescriptor, CheckDeploymentResult,
}
use krusty_kms.Domain.Runtime.{
  AccountSnapshot, AccountSnapshotRequest, DeployAccountRequest, DeployAccountResult,
  OperationStatus, OperationKind,
}
use krusty_kms.Domain.Signing.{SignRequest, SignResult}
use krusty_kms.Gateway.Operations.{OperationRetentionPolicy, new, get, prune}
use krusty_kms.Gateway.Operations.Retention.{new-IsValid, get-IsValid}
use krusty_kms.Gateway.Cache.{SnapshotCacheKey, empty_cache, default_snapshot_cache_max_entries}
use krusty_kms.Gateway.Cache.Storing.{empty_cache-IsBounded}
use krusty_kms.Gateway.System.{System}
use krusty_kms.Gateway.Runtime.{
  Gateway, GatewayResponse, M, pure, ◌>>=◌, call, operation_status, read_status,
}
use krusty_kms.Gateway.Runtime.Settling.{Ready}
use krusty_kms.Gateway.Runtime.Handlers.{Handles, weaken}
use krusty_kms.Gateway.Query.{query_snapshot}
use krusty_kms.Gateway.Accounts.{derive, check_account, deploy}
use krusty_kms.Gateway.Signing.{sign_request}
use krusty_kms.Gateway.Handled.{
  derive-Handles, check_account-Handles, deploy-Handles, sign_request-Handles,
}
use krusty_kms.Gateway.Handled.Queries.{query_snapshot-Handles}

pub data Request : Type 0 where
  derives checks : DerivationRequest → Request
  deploys : DeployAccountRequest → Request
  signs : SignRequest → Request
  queries : AccountSnapshotRequest → Request
  asks_status : OperationId → Request

pub data Reply : Type 0 where
  derived : GatewayResult (GatewayResponse AccountDescriptor) → Reply
  checked : GatewayResult (GatewayResponse CheckDeploymentResult) → Reply
  deployed : GatewayResult (GatewayResponse DeployAccountResult) → Reply
  signed : GatewayResult (GatewayResponse SignResult) → Reply
  queried : GatewayResult (GatewayResponse AccountSnapshot) → Reply
  status : Option OperationStatus → Reply

-- `Gateway::with_clock_and_retention`
unfoldable pub new_gateway : {E : Type 0} → OperationRetentionPolicy → E → Gateway E
new_gateway retention outside = record {
  outside = outside;
  operations = new retention;
  snapshot_cache = empty_cache;
  snapshot_cache_max_entries = default_snapshot_cache_max_entries;
}

module _ {E : Type 0} (dec : Discrete OperationId) (dec_key : Discrete SnapshotCacheKey)
    (sys : System E) where
  unfoldable pub serve : Request → M E Reply
  serve (derives request) = derive sys dec request >>= λ result. pure (derived result)
  serve (checks request) = check_account sys dec request >>= λ result. pure (checked result)
  serve (deploys request) = deploy sys dec request >>= λ result. pure (deployed result)
  serve (signs request) = sign_request dec sys request >>= λ result. pure (signed result)
  serve (queries request) =
      query_snapshot dec dec_key sys request >>= λ result. pure (queried result)
  serve (asks_status id) = operation_status dec sys id >>= λ found. pure (status found)

  unfoldable pub serve_all : List Request → M E (List Reply)
  serve_all [] = pure []
  serve_all (request ∷ requests) = do
    reply ← serve request
    replies ← serve_all requests
    pure (reply ∷ replies)

  Served : ℕ → Gateway E → Request → Type 0
  Served left g request =
      (reply : Reply) × (g' : Gateway E) × (serve request g ≡ some (reply, g'))
      × Ready dec dec_key left g'

  -- A handler's reply, wrapped.
  wrapped :
      {A : Type 0} (kind : OperationKind) (left : ℕ) (p : M E (GatewayResult (GatewayResponse A)))
      (wrap : GatewayResult (GatewayResponse A) → Reply)
      → Handles dec dec_key sys left kind p
      → (g : Gateway E) → Ready dec dec_key (left + 3) g
      → (reply : Reply) × (g' : Gateway E) × ((p >>= λ result. pure (wrap result)) g
          ≡ some (reply, g'))
        × Ready dec dec_key left g'
  unfolding ◌>>=◌
  wrapped kind left p wrap handles g ready =
      let (r, g', e, after, _) = handles g ready in (wrap r, g', rw e refl, after)

  -- A query for a status writes none.
  asks-Ready :
      (left : ℕ) (id : OperationId) (g : Gateway E)
      → Ready dec dec_key (left + 3) g
      → Served left g (asks_status id)
  unfolding Served serve operation_status read_status ◌>>=◌ call get prune
  asks-Ready left id g ready =
      let now_ms = (sys.now_ms g.outside).0 in
      let room = ready.room in
      (
        status (get dec g.operations id now_ms).0,
        record g {
          outside = (sys.now_ms g.outside).1;
          operations = (get dec g.operations id now_ms).1;
        },
        refl,
        record {
          store = get-IsValid dec g.operations id now_ms ready.store;
          room = omega arith;
          cache = ready.cache;
          positive = ready.positive;
        },
      )

  serve-Ready :
      (left : ℕ) (request : Request) (g : Gateway E)
      → Ready dec dec_key (left + 3) g
      → Served left g request
  unfolding Served serve
  serve-Ready left (derives request) =
      wrapped _ left _ derived (derive-Handles dec dec_key sys left request)
  serve-Ready left (checks request) =
      wrapped _ left _ checked (check_account-Handles dec dec_key sys left request)
  serve-Ready left (deploys request) =
      wrapped _ left _ deployed (deploy-Handles dec dec_key sys left request)
  serve-Ready left (signs request) =
      wrapped _ left _ signed (sign_request-Handles dec dec_key sys left request)
  serve-Ready left (queries request) =
      wrapped _ left _ queried (query_snapshot-Handles dec dec_key sys left request)
  serve-Ready left (asks_status id) = asks-Ready left id

  serve_all-Ready :
      (requests : List Request) (g : Gateway E)
      → Ready dec dec_key (3 * length requests) g
      → (replies : List Reply) × (g' : Gateway E) × (serve_all requests g ≡ some (replies, g'))
        × (length replies ≡ length requests)
        × Ready dec dec_key 0 g'
  unfolding serve_all ◌>>=◌ Served
  serve_all-Ready [] g ready = ([], g, refl, refl, ready)
  serve_all-Ready (request ∷ requests) g ready =
      let enough =
        weaken dec dec_key (3 * suc (length requests)) (3 * length requests + 3) g (omega arith)
          ready in
      let (reply, g₁, e, ready₁) = serve-Ready (3 * length requests) request g enough in
      let (replies, g₂, e₂, size, ready₂) = serve_all-Ready requests g₁ ready₁ in
      (reply ∷ replies, g₂, rw (e, e₂) refl, omega (arith, size), ready₂)

  -- A new gateway with a positive limit on entries answers any sequence of requests whose number is
  -- below a third of the largest `u64`: every handler ends, there is a reply for each request, and the
  -- store of operations and the snapshot cache are well formed and within their limits at the end.
  pub serve_all-new_gateway :
      (retention : OperationRetentionPolicy) (outside : E) (requests : List Request)
      → 0 < retention.max_entries
      → 3 * length requests < u64_max
      → (replies : List Reply) × (g' : Gateway E) × (serve_all requests
            (new_gateway retention outside)
          ≡ some (replies, g'))
        × (length replies ≡ length requests)
        × Ready dec dec_key 0 g'
  unfolding new_gateway new
  serve_all-new_gateway retention outside requests positive few =
      serve_all-Ready requests (new_gateway retention outside) (record {
        store = new-IsValid dec retention positive;
        room = omega arith;
        cache = empty_cache-IsBounded dec_key default_snapshot_cache_max_entries;
        positive = omega arith;
      })
