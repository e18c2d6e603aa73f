-- ===== src/Gateway/Runtime/Returning.antt =====
-- What holds whenever a part of a handler of crates/gateway returns a value: rules by its structure.
use krusty_kms.Prelude.{◌≡◌, refl, subst, Option, none, some}
use krusty_kms.Domain.Error.{GatewayError, GatewayResult, fails, returns}
use krusty_kms.Domain.Account.{OperationId, Provenance}
use krusty_kms.Domain.Runtime.{OperationKind, OperationState, OperationStatus}
use krusty_kms.Gateway.System.{System}
use krusty_kms.Gateway.Runtime.{
  Gateway, GatewayResponse, M, pure, continue, ◌>>=◌, call, cases, attempt, record_status,
  set_operation, begin_operation, refuse, finish, require, tracked,
}

module _ {E : Type 0} {B : Type 0} (P : B → Type 0) where
  abbrev pub Returns : M E (GatewayResult B) → Type 0
  Returns p = (g g' : Gateway E) (v : B) → p g ≡ some (returns v, g') → P v

  pub >>=-Returns :
      {A : Type 0} (m : M E A) (next : A → M E (GatewayResult B))
      → ((a : A) → Returns (next a))
      → Returns (m >>= next)
  unfolding ◌>>=◌
  >>=-Returns {A = A} m next h g g' v = go (m g)
    where
      go : (o : Option (A × Gateway E)) → continue o next ≡ some (returns v, g') → P v
      go none e = cc e
      go (some (a, g₁)) e = h a g₁ g' v e

  pub fails-Returns : (error : GatewayError) → Returns (pure (fails error))
  fails-Returns error g g' v e = cc e

  pub value-Returns : (w : B) → P w → Returns (pure (returns w))
  value-Returns w h g g' v e = subst P (cc e) h

  pub known-Returns :
      {A : Type 0} (result : GatewayResult A) (on_error : GatewayError → M E (GatewayResult B))
      (next : A → M E (GatewayResult B))
      → ((error : GatewayError) → Returns (on_error error))
      → ((a : A) → result ≡ returns a → Returns (next a))
      → Returns (attempt (pure result) on_error next)
  unfolding attempt ◌>>=◌
  known-Returns (fails error) on_error next he hv = he error
  known-Returns (returns a) on_error next he hv = hv a refl

  cases-Returns :
      {A : Type 0} (result : GatewayResult A) (on_error : GatewayError → M E (GatewayResult B))
      (next : A → M E (GatewayResult B))
      → ((error : GatewayError) → Returns (on_error error))
      → ((a : A) → Returns (next a))
      → Returns (cases result on_error next)
  cases-Returns (fails error) on_error next he hv = he error
  cases-Returns (returns a) on_error next he hv = hv a

  pub attempt-Returns :
      {A : Type 0} (m : M E (GatewayResult A)) (on_error : GatewayError → M E (GatewayResult B))
      (next : A → M E (GatewayResult B))
      → ((error : GatewayError) → Returns (on_error error))
      → ((a : A) → Returns (next a))
      → Returns (attempt m on_error next)
  unfolding attempt
  attempt-Returns m on_error next he hv =
      >>=-Returns m _ (λ result. cases-Returns result on_error next he hv)

  module _ (dec : Discrete OperationId) (sys : System E) where
    pub refuse-Returns :
        (status : OperationStatus) (error : GatewayError) (provenance : Option Provenance)
        → Returns (refuse dec sys status error provenance)
    unfolding refuse
    refuse-Returns status error provenance = >>=-Returns _ _ (λ _. fails-Returns error)

    pub require-Returns :
        {A : Type 0} (status : OperationStatus) (m : M E (GatewayResult A))
        (provenance : Option Provenance) (next : A → M E (GatewayResult B))
        → ((a : A) → Returns (next a))
        → Returns (require dec sys status m provenance next)
    require-Returns status m provenance next h =
        attempt-Returns m _ next (λ error. refuse-Returns status error provenance) h

    -- A check of the request has passed.
    pub require_known-Returns :
        {A : Type 0} (status : OperationStatus) (result : GatewayResult A)
        (provenance : Option Provenance) (next : A → M E (GatewayResult B))
        → ((a : A) → result ≡ returns a → Returns (next a))
        → Returns (require dec sys status (pure result) provenance next)
    require_known-Returns status result provenance next h =
        known-Returns result _ next (λ error. refuse-Returns status error provenance) h

    pub tracked-Returns :
        (kind : OperationKind) (body : OperationStatus → M E (GatewayResult B))
        → ((status : OperationStatus) → Returns (body status))
        → Returns (tracked dec sys kind body)
    unfolding tracked
    tracked-Returns kind body h =
        attempt-Returns (begin_operation dec sys kind) _ _ fails-Returns
          (λ status. >>=-Returns _ _ (λ _. h status))

module _ {E : Type 0} {A : Type 0} (P : GatewayResponse A → Type 0) (dec : Discrete OperationId)
    (sys : System E) where
  pub finish-Returns :
      (status : OperationStatus) (state : OperationState) (provenance : Option Provenance)
      (value : A)
      → P (record {
        operation = record {
          id = status.id;
          kind = status.kind;
          state = state;
          provenance = provenance;
        };
        value = value;
      })
      → Returns P (finish dec sys status state provenance value)
  unfolding finish set_operation ◌>>=◌ call record_status
  finish-Returns status state provenance value h g g' v e = subst P (cc e) h

module _ {E : Type 0} {A B : Type 0} (Q : A → Type 0) (P : B → Type 0) where
  -- What is known of the value that a call returned holds after it.
  pub attempt_that-Returns :
      (m : M E (GatewayResult A)) (on_error : GatewayError → M E (GatewayResult B))
      (next : A → M E (GatewayResult B))
      → Returns Q m
      → ((error : GatewayError) → Returns P (on_error error))
      → ((a : A) → Q a → Returns P (next a))
      → Returns P (attempt m on_error next)
  unfolding attempt ◌>>=◌
  attempt_that-Returns m on_error next hm he hn g g' v = go (m g) refl
    where
      go :
          (o : Option (GatewayResult A × Gateway E))
          → m g ≡ o
          → continue o (λ result. cases result on_error next) ≡ some (returns v, g')
          → P v
      go none same e = cc e
      go (some (fails error, g₁)) same e = he error g₁ g' v e
      go (some (returns a, g₁)) same e = hn a (hm g g₁ a same) g₁ g' v e

  pub require_that-Returns :
      (dec : Discrete OperationId) (sys : System E) (status : OperationStatus)
      (m : M E (GatewayResult A)) (provenance : Option Provenance)
      (next : A → M E (GatewayResult B))
      → Returns Q m
      → ((a : A) → Q a → Returns P (next a))
      → Returns P (require dec sys status m provenance next)
  require_that-Returns dec sys status m provenance next hm hn =
      attempt_that-Returns m _ next hm (λ error. refuse-Returns P dec sys status error provenance)
        hn
