-- ===== src/Middleware/Http.antt =====
-- middleware/http.go and middleware/http_handler.go. The writer of a handler is that of Http/Recorder:
-- serverRecorder does on WriteHeader and Write what responseRecorder of package http does.
pub mod Laws
use fortify.Base.{
  ℕ, Bool, true, false, not, ◌&&◌, if◌then◌else◌, Option, none, some, List, [], ◌∷◌, ◌++◌, ◌==◌, ℤ,
  pos, is_pos, Float64,
}
use fortify.Ferrors.{Error, is, err_circuit_open, deadline_exceeded}
use fortify.CircuitBreaker.Config.{Config as BreakerConfig}
use fortify.CircuitBreaker.Breaker.{CircuitBreaker}
use fortify.CircuitBreaker.Execute.{Call, Others, execute}
use fortify.Timeout
use fortify.RateLimit.Errors.{Key}
use fortify.RateLimit.Store.{Visit, Store}
use fortify.RateLimit.Limiter.{RateLimiter, allow}
use fortify.Http.Recorder.{WriterCall, http_error, ResponseRecorder, new_recorder, Use, serve}
use fortify.Http.Handlers.{status_error}
use fortify.Middleware.Chain.{Next, execute as run_chain}
use fortify.Middleware.Presets.{Packages, http_client}
use fortify.Middleware.Presets.Configs.{HttpClientConfig, breaker_config, timeout_config}

module _ {World Ctx T : Type 0} where
  -- HTTPRoundTripper, and RoundTrip of what it makes; `inner` is the RoundTrip of the transport.
  unfoldable pub http_round_tripper :
      ⦃fl : Float64⦄
      → Packages World Ctx T
      → HttpClientConfig
      → Next World Ctx T
      → Option (Ctx → World → World × (T × Option Error))
  unfolding http_client
  http_round_tripper p cfg inner = elim (http_client p cfg) [
    | none ↦ none
    | some chain ↦ some (λ ctx w. run_chain ctx inner w chain)
  ]

-- Whether RateLimit and RateLimitKeyFn are set, and the other fields.
pub record HttpHandlerConfig : Type 0 where
  pub timeout : ℤ
  pub limits : Bool
  pub has_key_fn : Bool
  pub cb_failure_threshold : ℕ
  pub cb_open_timeout : ℤ

unfoldable pub http_handler_defaults : HttpHandlerConfig → HttpHandlerConfig
http_handler_defaults c = record c {
  cb_failure_threshold = if c.cb_failure_threshold == 0 then 10 else c.cb_failure_threshold;
  cb_open_timeout = if is_pos c.cb_open_timeout then c.cb_open_timeout else pos 30000000000;
}

-- HTTPHandler: the configurations of its breaker and of its timeout, or none for its errors.
unfoldable pub http_handler :
    ⦃fl : Float64⦄ → HttpHandlerConfig → Option (BreakerConfig × Timeout.Config)
unfolding http_handler_defaults
http_handler cfg =
    let c = http_handler_defaults cfg in
    if not (is_pos cfg.timeout)
    then none
    else if cfg.limits && not cfg.has_key_fn
    then none
    else some (breaker_config 3 c.cb_open_timeout c.cb_failure_threshold, timeout_config c.timeout)

-- What ServeHTTP meets: the errors of the two contexts of the timeout after the inner handler.
pub record Request : Type 0 where
  pub ctx_err : Option Error
  pub parent_err : Option Error
  pub key : Key
  pub visit : Visit

-- The error that the timeout gives to the breaker, around a handler that has served `s`.
unfoldable pub timed_error : ℤ → Request → ResponseRecorder → Option Error
unfolding status_error
timed_error timeout r s =
    let out = Timeout.execute (timeout_config timeout) 0 timeout (record {
      result = (s.status_code, status_error s.status_code);
      ctx_err = r.ctx_err;
      parent_err = r.parent_err;
    }) in
    out.err

-- The status of the error that ServeHTTP writes.
unfoldable pub error_status : Error → ℕ
error_status e = if is e err_circuit_open then 503 else if is e deadline_exceeded then 504 else 500

module _ ⦃fl : Float64⦄ where
  abbrev pub with_served : ℤ → Call ℕ → Request → ResponseRecorder → Call ℕ
  with_served timeout call r s = record call { result = (s.status_code, timed_error timeout r s) }

  -- The part of ServeHTTP behind the rate limiter.
  unfoldable pub serve_protected :
      ℤ → Call ℕ → Others → Request → List Use → CircuitBreaker → CircuitBreaker × List WriterCall
  unfolding serve timed_error error_status
  serve_protected timeout call others r next cb =
      let served = serve next new_recorder in
      let out = execute 0 (with_served timeout call r served) others cb in
      let rec = if out.ran then served else new_recorder in
      elim out.err [
        | none ↦ (out.breaker, rec.calls)
        | some e ↦
            if rec.written
            then (out.breaker, rec.calls)
            else (out.breaker, rec.calls ++ (http_error (error_status e) ∷ []))
      ]

  -- ServeHTTP with a rate limiter.
  unfoldable pub serve_http :
      (S : Store)
      → ℤ
      → Call ℕ
      → Others
      → Request
      → List Use
      → RateLimiter S
      → CircuitBreaker
      → RateLimiter S × (CircuitBreaker × List WriterCall)
  unfolding serve_protected
  serve_http S timeout call others r next rl cb =
      let (rl', allowed) = allow S r.visit r.key rl in
      if not allowed
      then (rl', (cb, http_error 429 ∷ []))
      else (rl', serve_protected timeout call others r next cb)
