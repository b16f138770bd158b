-- ===== src/Examples/HandlerCases.antt =====
-- The handler of middleware/http_handler.go at work.
use fortify.Base.{◌≢◌, ℕ, ◌≡◌, true, false, ◌⊎◌, none, some, List, [], ◌∷◌, pos}
use fortify.Ferrors.{Error, sentinel, deadline_exceeded}
use fortify.CircuitBreaker.Breaker.{new}
use fortify.CircuitBreaker.Execute.{Call, execute}
use fortify.RateLimit.Limiter.{allow}
use fortify.Http.Recorder.{http_error, new_recorder, Use, serve}
use fortify.Middleware.Http.{Request, with_served, serve_http}
use fortify.Middleware.Http.Laws.{StatusOf, serve_http_response}
use fortify.Examples.Ratio.{ratio}
use fortify.Examples.BreakerCases.{config, at, nobody}
use fortify.Examples.RateCases.{store, limiter, alice, visit}

abbrev call : Call ℕ
call = record {
  ctx_err = none;
  fast_now = 1050;
  admitted_at = at 1050;
  completed_at = at 1060;
  result = (0, none);
}

-- The timeout ends while the inner handler has written nothing.
abbrev late : Request
late = record {
  ctx_err = some (sentinel deadline_exceeded);
  parent_err = none;
  key = alice;
  visit = visit;
}

abbrev silent : List Use
silent = []

serve_http_response_example :
    let allowed = (allow store visit alice limiter).1 in
    let served = serve silent new_recorder in
    let out = execute 0 (with_served (pos 10) call late served) nobody (new config 1000) in
    let (breaker, calls) =
      (serve_http store (pos 10) call nobody late silent limiter (new config 1000)).1 in
    ((allowed ≡ false) × (breaker ≡ new config 1000) × (calls ≡ http_error 429 ∷ []))
    ⊎ ((allowed ≡ true)
        × (out.ran ≡ true)
        × ((silent ≢ []) ⊎ (out.err ≡ none))
        × (breaker ≡ out.breaker)
        × (calls ≡ served.calls))
    ⊎ ((e : Error) × (status : ℕ) × (allowed ≡ true)
        × ((out.ran ≡ false) ⊎ (silent ≡ []))
        × (out.err ≡ some e)
        × StatusOf e status
        × (breaker ≡ out.breaker)
        × (calls ≡ http_error status ∷ []))
serve_http_response_example =
    serve_http_response store (pos 10) call nobody late silent limiter (new config 1000)
