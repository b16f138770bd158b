-- ===== src/Middleware/Http/Laws.antt =====
-- Which responses the handler of middleware/http_handler.go gives.
use fortify.Base.{
  ℕ, ◌≡◌, refl, true, false, ◌⊎◌, ◌≢◌, inl, inr, none, some, Option-cases, List, [], ◌∷◌, Float64,
  ℤ, arith,
}
use fortify.Ferrors.{Error, is, err_circuit_open, deadline_exceeded}
use fortify.CircuitBreaker.Breaker.{CircuitBreaker}
use fortify.CircuitBreaker.Execute.{Call, Others, execute}
use fortify.CircuitBreaker.Admission.{execute_result}
use fortify.RateLimit.Store.{Store}
use fortify.RateLimit.Limiter.{RateLimiter, allow}
use fortify.Http.Recorder.{
  http_error, ResponseRecorder, new_recorder, Use, sets_status, writes, write_header, write, serve,
}
use fortify.Middleware.Http.{Request, with_served, error_status, serve_http}

-- Any call of WriteHeader or Write begins the response.
written_stays :
    (next : List Use) (rec : ResponseRecorder)
    → rec.written ≡ true
    → (serve next rec).written ≡ true
unfolding serve write_header write
written_stays [] rec h = h
written_stays (sets_status n ∷ next) rec h =
    written_stays next (write_header n rec) (ground (arith, h))
written_stays (writes b ∷ next) rec h = written_stays next (write b rec) (ground (arith, h))

served_cases :
    (next : List Use)
    → ((next ≡ []) × (serve next new_recorder ≡ new_recorder))
      ⊎ ((next ≢ []) × ((serve next new_recorder).written ≡ true))
unfolding serve write_header write
served_cases [] = inl (refl, refl)
served_cases (sets_status n ∷ next) =
    inr (λ h. ground (arith, h), written_stays next (write_header n new_recorder) refl)
served_cases (writes b ∷ next) =
    inr (λ h. ground (arith, h), written_stays next (write b new_recorder) refl)

-- The status of an error: 503 for an open circuit, else 504 for a deadline, else 500.
abbrev pub StatusOf : Error → ℕ → Type 0
StatusOf e status =
    ((is e err_circuit_open ≡ true) × (status ≡ 503))
    ⊎ ((is e err_circuit_open ≡ false) × (is e deadline_exceeded ≡ true) × (status ≡ 504))
    ⊎ ((is e err_circuit_open ≡ false) × (is e deadline_exceeded ≡ false) × (status ≡ 500))

error_status-StatusOf : (e : Error) → StatusOf e (error_status e)
unfolding error_status
error_status-StatusOf e = ground arith

module _ ⦃fl : Float64⦄ where
  -- ServeHTTP of a handler with a rate limiter sends one response. Without the limiter's leave it is
  -- 429, and the breaker is left as it is. With it, when the breaker ran the inner handler, and that
  -- wrote something or there is no error, it is what the inner handler wrote; and when that was not
  -- run or wrote nothing, and there is an error, it is the status of the error alone.
  pub serve_http_response :
      (S : Store) (timeout : ℤ) (call : Call ℕ) (others : Others) (r : Request) (next : List Use)
      (rl : RateLimiter S) (cb : CircuitBreaker)
      → let allowed = (allow S r.visit r.key rl).1 in
        let served = serve next new_recorder in
        let out = execute 0 (with_served timeout call r served) others cb in
        let (breaker, calls) = (serve_http S timeout call others r next rl cb).1 in
        ((allowed ≡ false) × (breaker ≡ cb) × (calls ≡ http_error 429 ∷ []))
        ⊎ ((allowed ≡ true)
            × (out.ran ≡ true)
            × ((next ≢ []) ⊎ (out.err ≡ none))
            × (breaker ≡ out.breaker)
            × (calls ≡ served.calls))
        ⊎ ((e : Error) × (status : ℕ) × (allowed ≡ true)
            × ((out.ran ≡ false) ⊎ (next ≡ []))
            × (out.err ≡ some e)
            × StatusOf e status
            × (breaker ≡ out.breaker)
            × (calls ≡ http_error status ∷ []))
  unfolding serve_http
  serve_http_response S timeout call others r next rl cb =
      let out = execute 0 (with_served timeout call r (serve next new_recorder)) others cb in
      let result =
        execute_result 0 (with_served timeout call r (serve next new_recorder)) others cb in
      let served = served_cases next in
      elim (Option-cases out.err) [
        | inl fine ↦ ground (arith, served, result, fine)
        | inr (e, failed) ↦ ground (arith, served, result, failed, error_status-StatusOf e)
      ]
