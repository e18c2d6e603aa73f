-- ===== src/Gateway/Validation.antt =====
-- The checks of requests in crates/gateway/src/gateway.rs.
use krusty_kms.Prelude.{ℕ, ◌*◌, false, not, ltb, ◌==◌}
use krusty_kms.Domain.Error.{
  GatewayErrorCode as Code, GatewayError, gateway_error, GatewayResult, returns, check, ◌>>◌,
}
use krusty_kms.Domain.Account.{ChainId, same_chain}
use krusty_kms.Domain.Runtime.{CachePolicy, DeployMode, submit_only, wait_for_acceptance}

abbrev pub max_wait_timeout_ms : ℕ
max_wait_timeout_ms = 15 * 60 * 1000

abbrev pub min_wait_poll_interval_ms : ℕ
min_wait_poll_interval_ms = 250

unfoldable pub ensure_chain_matches : ChainId → ChainId → GatewayResult (Unit {0})
ensure_chain_matches configured chain_id =
    check (same_chain chain_id configured) (gateway_error Code.chain_mismatch false)

unfoldable pub validate_cache_policy : CachePolicy → GatewayResult (Unit {0})
validate_cache_policy cache_policy =
    check (not (cache_policy.ttl_ms == 0)) (gateway_error Code.invalid_cache_policy false)

abbrev invalid_wait : GatewayError
invalid_wait = gateway_error Code.invalid_wait_policy false

unfoldable pub validate_wait_mode : DeployMode → GatewayResult (Unit {0})
validate_wait_mode submit_only = returns tt
validate_wait_mode (wait_for_acceptance wait) = do
  check (not (ltb wait.poll_interval_ms min_wait_poll_interval_ms)) invalid_wait
  check (not (ltb max_wait_timeout_ms wait.poll_interval_ms)) invalid_wait
  check (not (wait.timeout_ms == 0)) invalid_wait
  check (not (ltb max_wait_timeout_ms wait.timeout_ms)) invalid_wait
