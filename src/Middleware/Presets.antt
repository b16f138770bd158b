-- ===== src/Middleware/Presets.antt =====
-- The presets of middleware/presets.go that are chains. The components that the packages make of a
-- configuration are an argument.
pub mod Configs
pub mod Order
pub mod Attempts
use fortify.Base.{Option, none, some, Float64, ℤ, is_pos, if◌then◌else◌}
use fortify.CircuitBreaker.Config.{Config as BreakerConfig}
use fortify.Retry.Config.{Config as RetryConfig}
use fortify.Budget.Defs.{Budget, new as new_budget}
use fortify.Bulkhead.Config.{Config as BulkheadConfig}
use fortify.Timeout.{Config as TimeoutConfig}
use fortify.Middleware.Chain.{
  Chain, Component, Timeout, new, with_bulkhead, with_budget, with_circuit_breaker, with_retry,
  with_timeout,
}
use fortify.Middleware.Presets.Configs.{
  HttpClientConfig, DatabaseQueryConfig, RpcDownstreamConfig, LlmCallConfig, http_client_defaults,
  database_query_defaults, rpc_downstream_defaults, llm_call_defaults, http_client_breaker,
  http_client_retry, database_query_breaker, database_query_retry, rpc_downstream_breaker,
  rpc_downstream_retry, llm_call_breaker, llm_call_retry, llm_call_budget, llm_call_bulkhead,
  timeout_config,
}

module _ ⦃fl : Float64⦄ (World Ctx T : Type 0) where
  -- circuitbreaker.New, retry.New, timeout.New and bulkhead.New, and the budget that budget.New has
  -- made.
  pub record Packages : Type 0 where
    pub circuit_breaker : BreakerConfig → Component World Ctx T
    pub retry : RetryConfig → Component World Ctx T
    pub timeout : TimeoutConfig → Timeout World Ctx T
    pub bulkhead : BulkheadConfig → Component World Ctx T
    pub budget : Budget T → Component World Ctx T

module _ ⦃fl : Float64⦄ {World Ctx T : Type 0} (p : Packages World Ctx T) where
  -- none is the error of a timeout that is not positive, and of a budget without a ceiling.
  unfoldable pub http_client : HttpClientConfig → Option (Chain World Ctx T)
  unfolding http_client_defaults http_client_breaker http_client_retry
  http_client cfg =
      let c = http_client_defaults cfg in
      if is_pos cfg.timeout
      then some (
          with_timeout (p.timeout (timeout_config c.timeout)) c.timeout (
            with_retry (p.retry (http_client_retry c))
              (with_circuit_breaker (p.circuit_breaker (http_client_breaker c)) new)))
      else none

  unfoldable pub database_query : DatabaseQueryConfig → Option (Chain World Ctx T)
  unfolding database_query_defaults database_query_breaker database_query_retry
  database_query cfg =
      let c = database_query_defaults cfg in
      if is_pos cfg.query_timeout
      then some (
          with_timeout (p.timeout (timeout_config c.query_timeout)) c.query_timeout (
            with_retry (p.retry (database_query_retry c))
              (with_circuit_breaker (p.circuit_breaker (database_query_breaker c)) new)))
      else none

  unfoldable pub rpc_downstream : RpcDownstreamConfig → Option (Chain World Ctx T)
  unfolding rpc_downstream_defaults rpc_downstream_breaker rpc_downstream_retry
  rpc_downstream cfg =
      let c = rpc_downstream_defaults cfg in
      if is_pos cfg.call_timeout
      then some (
          with_timeout (p.timeout (timeout_config c.call_timeout)) c.call_timeout (
            with_retry (p.retry (rpc_downstream_retry c))
              (with_circuit_breaker (p.circuit_breaker (rpc_downstream_breaker c)) new)))
      else none

  unfoldable pub llm_call : LlmCallConfig T → Option (Chain World Ctx T)
  unfolding llm_call_defaults llm_call_breaker llm_call_retry llm_call_budget llm_call_bulkhead
  llm_call cfg =
      let c = llm_call_defaults cfg in
      if is_pos cfg.call_timeout
      then elim (new_budget (llm_call_budget c)) [
        | none ↦ none
        | some b ↦ some (
            with_timeout (p.timeout (timeout_config c.call_timeout)) c.call_timeout (
              with_budget (p.budget b) (
                with_retry (p.retry (llm_call_retry c)) (
                  with_circuit_breaker (p.circuit_breaker (llm_call_breaker c))
                    (with_bulkhead (p.bulkhead (llm_call_bulkhead c)) new)))))
      ]
      else none
