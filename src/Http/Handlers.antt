-- ===== src/Http/Handlers.antt =====
-- The handlers of http/middleware.go around a handler `next`, which is the list of what it does with its
-- writer.
pub mod Laws
use fortify.Base.{
  ℕ, Bool, true, false, not, ◌||◌, ◌==◌, if◌then◌else◌, leb, Option, none, some, List, [], ◌∷◌,
  ◌++◌, ℤ, Float64,
}
use fortify.Ferrors.{Error, sentinel, err_circuit_open}
use fortify.CircuitBreaker.Breaker.{CircuitBreaker}
use fortify.CircuitBreaker.Execute.{Call, Others, execute}
use fortify.Timeout
use fortify.RateLimit.Errors.{Key}
use fortify.RateLimit.Store.{Visit, Store}
use fortify.RateLimit.Limiter.{RateLimiter, allow}
use fortify.Http.Recorder.{
  WriterCall, writes_header, writes_body, http_error, status_ok, ResponseRecorder, new_recorder,
  write_header, write, Use, sets_status, writes, serve,
}

abbrev pub status_too_many_requests : ℕ
status_too_many_requests = 429

abbrev pub status_service_unavailable : ℕ
status_service_unavailable = 503

abbrev pub status_gateway_timeout : ℕ
status_gateway_timeout = 504

-- The text "Gateway Timeout".
abbrev pub gateway_timeout : List ℕ
gateway_timeout =
    71 ∷ 97 ∷ 116 ∷ 101 ∷ 119 ∷ 97 ∷ 121 ∷ 32 ∷ 84 ∷ 105 ∷ 109 ∷ 101 ∷ 111 ∷ 117 ∷ 116 ∷ []

-- The error that the operation returns for the status of the handler.
unfoldable pub status_error : ℕ → Option Error
status_error status = if leb 500 status then some (sentinel err_circuit_open) else none

module _ ⦃fl : Float64⦄ where
  -- The arguments of Execute but for the result, which is the handler's.
  abbrev pub with_result : Call ℕ → ResponseRecorder → Call ℕ
  with_result call rec = record call { result = (rec.status_code, status_error rec.status_code) }

  -- CircuitBreaker: what becomes of the breaker, and the calls on the writer.
  unfoldable pub circuit_breaker :
      Call ℕ → Others → List Use → CircuitBreaker → CircuitBreaker × List WriterCall
  unfolding serve status_error
  circuit_breaker call others next cb =
      let served = serve next new_recorder in
      let out = execute 0 (with_result call served) others cb in
      let rec = if out.ran then served else new_recorder in
      elim out.err [
        | none ↦ (out.breaker, rec.calls)
        | some e ↦
            if not rec.written
            then (out.breaker, rec.calls ++ (http_error status_service_unavailable ∷ []))
            else (out.breaker, rec.calls)
      ]

-- A handler on the writer itself.
unfoldable pub direct : List Use → List WriterCall
direct [] = []
direct (sets_status n ∷ uses) = writes_header n ∷ direct uses
direct (writes b ∷ uses) = writes_body b ∷ direct uses

-- RateLimit
unfoldable pub rate_limit :
    ⦃fl : Float64⦄ (S : Store)
    → Visit
    → Key
    → List Use
    → RateLimiter S
    → RateLimiter S × List WriterCall
unfolding direct
rate_limit S v key next rl =
    let (rl', allowed) = allow S v key rl in
    if not allowed then (rl', http_error status_too_many_requests ∷ []) else (rl', direct next)

-- Timeout: the errors of the two contexts after the handler has returned.
unfoldable pub timeout :
    Timeout.Config → ℤ → Option Error → Option Error → List Use → List WriterCall
unfolding serve
timeout config duration ctx_err parent_err next =
    let served = serve next new_recorder in
    let result : ℕ × Option Error = elim ctx_err [
      | some e ↦ (0, some e)
      | none ↦ (served.status_code, none)
    ] in
    let out =
      Timeout.execute config 0 duration
        (record { result = result; ctx_err = ctx_err; parent_err = parent_err }) in
    elim out.err [
      | none ↦ served.calls
      | some e ↦
          if not served.written || served.status_code == status_ok
          then (write gateway_timeout (write_header status_gateway_timeout served)).calls
          else served.calls
    ]
