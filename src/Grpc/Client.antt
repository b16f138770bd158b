-- ===== src/Grpc/Client.antt =====
-- The client interceptors of grpc/client.go. What the invoker or the streamer gives is an argument.
use fortify.Base.{ℕ, Bool, not, if◌then◌else◌, Option, none, some, ℤ, Float64}
use fortify.Ferrors.{Error, is, err_circuit_open}
use fortify.CircuitBreaker.Breaker.{CircuitBreaker}
use fortify.CircuitBreaker.Execute.{Call, Others, execute}
use fortify.Timeout
use fortify.RateLimit.Errors.{Key}
use fortify.RateLimit.Store.{Visit, Store}
use fortify.RateLimit.Limiter.{RateLimiter, allow}
use fortify.Grpc.Interceptors.{
  Response, RpcError, plain, status_of, rate_limit_exceeded, code_unavailable,
  code_resource_exhausted, as_plain, deadline_error,
}

unfoldable pub refused_call : Error → RpcError
refused_call e = if is e err_circuit_open then status_of code_unavailable e else plain e

-- The result of an operation that gives nil and this error.
abbrev pub gives : Option Error → Call (Option ℕ) → Call (Option ℕ)
gives err call = record call { result = (none, err) }

-- UnaryClientCircuitBreakerInterceptor
unfoldable pub client_circuit_breaker :
    ⦃fl : Float64⦄
    → Call (Option ℕ)
    → Others
    → Option Error
    → CircuitBreaker
    → CircuitBreaker × Option RpcError
unfolding refused_call
client_circuit_breaker call others invoked cb =
    let out = execute none (gives invoked call) others cb in
    elim out.err [ none ↦ (out.breaker, none) | some e ↦ (out.breaker, some (refused_call e)) ]

-- UnaryClientRateLimitInterceptor
unfoldable pub client_rate_limit :
    ⦃fl : Float64⦄ (S : Store)
    → Visit
    → Key
    → Option Error
    → RateLimiter S
    → RateLimiter S × Option RpcError
unfolding as_plain
client_rate_limit S v key invoked rl =
    let (rl', allowed) = allow S v key rl in
    if not allowed
    then (rl', some (rate_limit_exceeded code_resource_exhausted))
    else (rl', as_plain invoked)

-- UnaryClientTimeoutInterceptor
unfoldable pub client_timeout : Timeout.Config → ℤ → Timeout.Call (Option ℕ) → Option RpcError
unfolding deadline_error
client_timeout config duration call =
    let invoked = record call { result = (none, call.result.1) } in
    let out = Timeout.execute config none duration invoked in
    elim out.err [ none ↦ none | some e ↦ some (deadline_error e) ]

module _ {A : Type 0} where
  -- `stream = s`, which the operation does when the streamer has no error.
  unfoldable pub created : Bool → A × Option Error → Option A
  created ran (s, none) = if ran then some s else none
  created ran (s, some e) = none

  -- StreamClientCircuitBreakerInterceptor
  unfoldable pub client_stream_circuit_breaker :
      ⦃fl : Float64⦄
      → Call (Option ℕ)
      → Others
      → A × Option Error
      → CircuitBreaker
      → CircuitBreaker × Response A
  unfolding created refused_call
  client_stream_circuit_breaker call others streamed cb =
      let out = execute none (gives streamed.1 call) others cb in
      elim out.err [
        | none ↦ (out.breaker, (created out.ran streamed, none))
        | some e ↦ (out.breaker, (none, some (refused_call e)))
      ]

  -- StreamClientRateLimitInterceptor
  unfoldable pub client_stream_rate_limit :
      ⦃fl : Float64⦄ (S : Store)
      → Visit
      → Key
      → Option A × Option Error
      → RateLimiter S
      → RateLimiter S × Response A
  unfolding as_plain
  client_stream_rate_limit S v key streamed rl =
      let (rl', allowed) = allow S v key rl in
      if not allowed
      then (rl', (none, some (rate_limit_exceeded code_resource_exhausted)))
      else (rl', (streamed.0, as_plain streamed.1))
