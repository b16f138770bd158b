-- ===== src/Middleware/Presets/Order.antt =====
-- In which order the presets of middleware/presets.go wrap the operation.
use fortify.Base.{◌≡◌, some, Float64, ℤ, is_pos, true, arith, Bool-cases, Option-cases, inl, inr}
use fortify.Budget.Defs.{Budget, new as new_budget}
use fortify.Middleware.Chain.{
  Next, Chain, Component, Timeout, new, with_bulkhead, with_budget, with_circuit_breaker,
  with_retry, with_timeout, execute,
}
use fortify.Middleware.Presets.Configs.{
  HttpClientConfig, DatabaseQueryConfig, RpcDownstreamConfig, LlmCallConfig, http_client_defaults,
  database_query_defaults, rpc_downstream_defaults, llm_call_defaults, http_client_breaker,
  http_client_retry, database_query_breaker, database_query_retry, rpc_downstream_breaker,
  rpc_downstream_retry, llm_call_breaker, llm_call_retry, llm_call_budget, llm_call_bulkhead,
  timeout_config,
}
use fortify.Middleware.Presets.{Packages, http_client, database_query, rpc_downstream, llm_call}

module _ {World Ctx T : Type 0} where
  -- fn under the timeout, and a function through a component.
  abbrev pub timed : Timeout World Ctx T → ℤ → Next World Ctx T → Next World Ctx T
  timed tm d fn ctx w = tm.execute ctx d fn w

  abbrev pub inside : Component World Ctx T → Next World Ctx T → Next World Ctx T
  inside c fn ctx w = c.execute ctx fn w

module _ ⦃fl : Float64⦄ {World Ctx T : Type 0} (p : Packages World Ctx T) where
  -- A chain that HTTPClient returns runs the circuit breaker outermost, the retry inside it and the
  -- timeout around each attempt, each with the configuration of the preset, if Timeout is positive.
  http_client_layers :
      (cfg : HttpClientConfig) (chain : Chain World Ctx T) (ctx : Ctx) (fn : Next World Ctx T)
      (w : World)
      → http_client p cfg ≡ some chain
      → let c = http_client_defaults cfg in
        (is_pos cfg.timeout ≡ true)
        × (execute ctx fn w chain
            ≡ inside
                (p.circuit_breaker (http_client_breaker c))
                (inside
                  (p.retry (http_client_retry c))
                  (timed (p.timeout (timeout_config c.timeout)) c.timeout fn))
                ctx
                w)
  unfolding http_client with_timeout with_retry with_circuit_breaker new execute
  http_client_layers cfg chain ctx fn w h = elim (Bool-cases (is_pos cfg.timeout)) [
    | inl positive ↦ ground (arith, positive, h)
    | inr not_positive ↦ ground (arith, not_positive, h)
  ]

  -- DatabaseQuery and RPCDownstream layer their components in the same way.
  database_query_layers :
      (cfg : DatabaseQueryConfig) (chain : Chain World Ctx T) (ctx : Ctx) (fn : Next World Ctx T)
      (w : World)
      → database_query p cfg ≡ some chain
      → let c = database_query_defaults cfg in
        execute ctx fn w chain
        ≡ inside
            (p.circuit_breaker (database_query_breaker c))
            (inside
              (p.retry (database_query_retry c))
              (timed (p.timeout (timeout_config c.query_timeout)) c.query_timeout fn))
            ctx
            w
  unfolding database_query with_timeout with_retry with_circuit_breaker new execute
  database_query_layers cfg chain ctx fn w h = elim (Bool-cases (is_pos cfg.query_timeout)) [
    | inl positive ↦ ground (arith, positive, h)
    | inr not_positive ↦ ground (arith, not_positive, h)
  ]

  rpc_downstream_layers :
      (cfg : RpcDownstreamConfig) (chain : Chain World Ctx T) (ctx : Ctx) (fn : Next World Ctx T)
      (w : World)
      → rpc_downstream p cfg ≡ some chain
      → let c = rpc_downstream_defaults cfg in
        execute ctx fn w chain
        ≡ inside
            (p.circuit_breaker (rpc_downstream_breaker c))
            (inside
              (p.retry (rpc_downstream_retry c))
              (timed (p.timeout (timeout_config c.call_timeout)) c.call_timeout fn))
            ctx
            w
  unfolding rpc_downstream with_timeout with_retry with_circuit_breaker new execute
  rpc_downstream_layers cfg chain ctx fn w h = elim (Bool-cases (is_pos cfg.call_timeout)) [
    | inl positive ↦ ground (arith, positive, h)
    | inr not_positive ↦ ground (arith, not_positive, h)
  ]

  -- A chain that LLMCall returns runs, from the outermost, the bulkhead, the circuit breaker, the retry,
  -- the budget and the timeout, each with the configuration of the preset, and CallTimeout is positive
  -- and the budget has a ceiling. So every attempt is charged and bounded in time.
  pub llm_call_layers :
      (cfg : LlmCallConfig T) (chain : Chain World Ctx T) (ctx : Ctx) (fn : Next World Ctx T)
      (w : World)
      → llm_call p cfg ≡ some chain
      → let c = llm_call_defaults cfg in
        (is_pos cfg.call_timeout ≡ true)
        × ((b : Budget T) × (new_budget (llm_call_budget c) ≡ some b)
            × (execute ctx fn w chain
                ≡ inside
                    (p.bulkhead (llm_call_bulkhead c))
                    (inside (p.circuit_breaker (llm_call_breaker c)) (
                      inside (p.retry (llm_call_retry c)) (
                        inside
                          (p.budget b)
                          (timed (p.timeout (timeout_config c.call_timeout)) c.call_timeout fn))))
                    ctx
                    w))
  unfolding llm_call with_timeout with_retry with_circuit_breaker with_budget with_bulkhead new
      execute
  llm_call_layers cfg chain ctx fn w h =
      let c = llm_call_defaults cfg in
      elim (Bool-cases (is_pos cfg.call_timeout)) [
        | inr not_positive ↦ ground (arith, not_positive, h)
        | inl positive ↦ elim (Option-cases (new_budget (llm_call_budget c))) [
          | inl refused ↦ ground (arith, positive, refused, h)
          | inr (b, made) ↦ (positive, (b, made, ground (arith, positive, made, h)))
        ]
      ]
