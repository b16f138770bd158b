-- ===== src/Http/Handlers/Laws.antt =====
-- Which responses the handlers of http/middleware.go give.
use fortify.Base.{
  ℕ, ◌≡◌, ◌≢◌, refl, true, false, ◌⊎◌, inr, Option, some, List, [], ◌∷◌, ◌++◌, ℤ, Float64, arith,
}
use fortify.Ferrors.{Error}
use fortify.CircuitBreaker.Breaker.{CircuitBreaker}
use fortify.CircuitBreaker.Execute.{Call, Others, execute}
use fortify.CircuitBreaker.Admission.{execute_result}
use fortify.Timeout
use fortify.Http.Recorder.{
  writes_header, writes_body, http_error, status_ok, ResponseRecorder, new_recorder, write_header,
  write, Use, sets_status, writes, serve,
}
use fortify.Http.Handlers.{
  status_service_unavailable, status_gateway_timeout, gateway_timeout, status_error, with_result,
  circuit_breaker, timeout,
}

-- A recorder that nobody has written to has the status 200.
abbrev pub Fresh : ResponseRecorder → Type 0
Fresh rec = (rec.written ≡ true) ⊎ ((rec.status_code ≡ status_ok) × (rec.calls ≡ []))

pub serve-Fresh : (next : List Use) (rec : ResponseRecorder) → Fresh rec → Fresh (serve next rec)
unfolding serve write_header write
serve-Fresh [] rec h = h
serve-Fresh (sets_status n ∷ next) rec h = serve-Fresh next (write_header n rec) (ground (arith, h))
serve-Fresh (writes b ∷ next) rec h = serve-Fresh next (write b rec) (ground (arith, h))

module _ ⦃fl : Float64⦄ where
  -- CircuitBreaker either answers 503 alone, and the breaker did not run the handler, or the breaker ran
  -- the handler and the response is what the handler wrote, whatever its status.
  circuit_breaker_response :
      (call : Call ℕ) (others : Others) (next : List Use) (cb : CircuitBreaker)
      → let served = serve next new_recorder in
        let out = execute 0 (with_result call served) others cb in
        let calls = (circuit_breaker call others next cb).1 in
        ((out.ran ≡ false) × (calls ≡ http_error status_service_unavailable ∷ []))
        ⊎ ((out.ran ≡ true) × (calls ≡ served.calls))
  unfolding circuit_breaker status_error
  circuit_breaker_response call others next cb =
      let served = serve next new_recorder in
      let fresh = serve-Fresh next new_recorder (inr (refl, refl)) in
      let result = execute_result 0 (with_result call served) others cb in
      ground (arith, fresh, result)

-- Timeout, when the operation has ended in an error: a response that the handler has not begun is
-- 504 with the text; a response that it has begun with the status 200 keeps that status and gets the
-- text after what the handler wrote; any other response is left as it is.
pub timeout_response :
    (config : Timeout.Config) (duration : ℤ) (ctx_err : Error) (parent_err : Option Error)
    (next : List Use)
    → let served = serve next new_recorder in
      let calls = timeout config duration (some ctx_err) parent_err next in
      ((served.written ≡ false)
        × (calls ≡ writes_header status_gateway_timeout ∷ writes_body gateway_timeout ∷ []))
      ⊎ ((served.written ≡ true)
          × (served.status_code ≡ status_ok)
          × (calls ≡ served.calls ++ (writes_body gateway_timeout ∷ [])))
      ⊎ ((served.written ≡ true) × (served.status_code ≢ status_ok) × (calls ≡ served.calls))
unfolding timeout Timeout.execute write_header write
timeout_response config duration ctx_err parent_err next =
    let served = serve next new_recorder in
    let fresh = serve-Fresh next new_recorder (inr (refl, refl)) in ground (arith, fresh)
