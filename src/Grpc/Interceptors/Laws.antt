-- ===== src/Grpc/Interceptors/Laws.antt =====
-- Which statuses the interceptors of grpc/interceptor.go give.
use fortify.Base.{ℕ, ◌≡◌, true, false, Option, none, some, ◌⊎◌, Float64, arith}
use fortify.Ferrors.{Error}
use fortify.CircuitBreaker.Breaker.{CircuitBreaker}
use fortify.CircuitBreaker.Execute.{Call, Others, execute}
use fortify.CircuitBreaker.Admission.{execute_result}
use fortify.Grpc.Interceptors.{status_of, code_unavailable, unary_circuit_breaker}

module _ ⦃fl : Float64⦄ where
  -- UnaryCircuitBreakerInterceptor gives the handler's response, and no error, when the breaker ran the
  -- handler and it had no error. In every other case the response is nil and the error has the code
  -- Unavailable: a refusal of the breaker, and an error of the handler alike, whatever its own code.
  pub unary_circuit_breaker_codes :
      (call : Call (Option ℕ)) (others : Others) (cb : CircuitBreaker)
      → let out = execute none call others cb in
        let response = (unary_circuit_breaker call others cb).1 in
        ((out.ran ≡ true) × (call.result.1 ≡ none) × (response ≡ (call.result.0, none)))
        ⊎ ((out.ran ≡ true)
            × ((e : Error) × (call.result.1 ≡ some e)
                × (response ≡ (none, some (status_of code_unavailable e)))))
        ⊎ ((out.ran ≡ false)
            × ((e : Error) × (out.err ≡ some e)
                × (response ≡ (none, some (status_of code_unavailable e)))))
  unfolding unary_circuit_breaker
  unary_circuit_breaker_codes call others cb =
      let result = execute_result none call others cb in ground (arith, result)
