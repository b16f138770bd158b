-- ===== src/Grpc/Interceptors.antt =====
-- The server interceptors of grpc/interceptor.go, and the extractors of a key. The status package of
-- gRPC is not modelled: status.Error is an error that carries the code and the error whose text it is
-- given.
pub mod Laws
use fortify.Base.{
  ℕ, Bool, true, false, not, if◌then◌else◌, Option, none, some, List, [], ◌∷◌, ℤ, Float64,
}
use fortify.Ferrors.{Error, is, err_circuit_open, deadline_exceeded}
use fortify.CircuitBreaker.Breaker.{CircuitBreaker}
use fortify.CircuitBreaker.Execute.{Call, Others, execute}
use fortify.Timeout
use fortify.RateLimit.Errors.{Key}
use fortify.RateLimit.Store.{Visit, Store}
use fortify.RateLimit.Limiter.{RateLimiter, allow}
use fortify.Grpc.Sanitize.{sanitize_metadata_key}

-- The codes that the interceptors use.
pub data Code : Type 0 where
  code_unavailable code_deadline_exceeded code_resource_exhausted : Code

pub data RpcError : Type 0 where
  plain : Error → RpcError
  status_of : Code → Error → RpcError
  rate_limit_exceeded : Code → RpcError

-- The response, which is nil or a value, and the error.
abbrev pub Response : Type 0 → Type 0
Response A = Option A × Option RpcError

unfoldable pub as_plain : Option Error → Option RpcError
as_plain none = none
as_plain (some e) = some (plain e)

-- The error of the operation as a status.
unfoldable pub breaker_error : Error → RpcError
breaker_error e =
    if is e err_circuit_open then status_of code_unavailable e else status_of code_unavailable e

unfoldable pub deadline_error : Error → RpcError
deadline_error e = if is e deadline_exceeded then status_of code_deadline_exceeded e else plain e

module _ {A : Type 0} where
  -- UnaryCircuitBreakerInterceptor. What the handler gives is the result of the operation.
  unfoldable pub unary_circuit_breaker :
      ⦃fl : Float64⦄ → Call (Option A) → Others → CircuitBreaker → CircuitBreaker × Response A
  unfolding breaker_error
  unary_circuit_breaker call others cb =
      let out = execute none call others cb in
      elim out.err [
        | some e ↦ (out.breaker, (none, some (breaker_error e)))
        | none ↦ (out.breaker, (out.value, none))
      ]

  -- UnaryRateLimitInterceptor around a handler that gives `next`.
  unfoldable pub unary_rate_limit :
      ⦃fl : Float64⦄ (S : Store)
      → Visit
      → Key
      → Option A × Option Error
      → RateLimiter S
      → RateLimiter S × Response A
  unfolding as_plain
  unary_rate_limit S v key next rl =
      let (rl', allowed) = allow S v key rl in
      if not allowed
      then (rl', (none, some (rate_limit_exceeded code_resource_exhausted)))
      else (rl', (next.0, as_plain next.1))

  -- UnaryTimeoutInterceptor
  unfoldable pub unary_timeout : Timeout.Config → ℤ → Timeout.Call (Option A) → Response A
  unfolding deadline_error
  unary_timeout config duration call =
      let out = Timeout.execute config none duration call in
      elim out.err [ some e ↦ (none, some (deadline_error e)) | none ↦ (out.value, none) ]

-- The interceptors of streams, whose operations give the handler's error and no response.
unfoldable pub stream_circuit_breaker :
    ⦃fl : Float64⦄ → Call (Option ℕ) → Others → CircuitBreaker → CircuitBreaker × Option RpcError
unfolding breaker_error
stream_circuit_breaker call others cb =
    let handled = record call { result = (none, call.result.1) } in
    let out = execute none handled others cb in
    elim out.err [ some e ↦ (out.breaker, some (breaker_error e)) | none ↦ (out.breaker, none) ]

unfoldable pub stream_rate_limit :
    ⦃fl : Float64⦄ (S : Store)
    → Visit
    → Key
    → Option Error
    → RateLimiter S
    → RateLimiter S × Option RpcError
unfolding as_plain
stream_rate_limit S v key next rl =
    let (rl', allowed) = allow S v key rl in
    if not allowed
    then (rl', some (rate_limit_exceeded code_resource_exhausted))
    else (rl', as_plain next)

unfoldable pub stream_timeout : Timeout.Config → ℤ → Timeout.Call (Option ℕ) → Option RpcError
unfolding deadline_error
stream_timeout config duration call =
    let handled = record call { result = (none, call.result.1) } in
    let out = Timeout.execute config none duration handled in
    elim out.err [ some e ↦ some (deadline_error e) | none ↦ none ]

-- KeyFromMetadata and StreamKeyFromMetadata: the values of the header in the incoming metadata, where
-- the context has any.
unfoldable pub key_from_metadata : Option (List (List ℕ)) → List ℕ
unfolding sanitize_metadata_key
key_from_metadata none = []
key_from_metadata (some []) = []
key_from_metadata (some (value ∷ values)) = sanitize_metadata_key value
