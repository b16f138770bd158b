-- ===== src/Examples/HttpCases.antt =====
-- The adapters to HTTP and gRPC at work (http/, grpc/).
use fortify.Base.{
  ℕ, ◌≤◌, ◌≡◌, ◌≢◌, refl, true, false, ◌⊎◌, ◌&&◌, if◌then◌else◌, Option, none, some, List, [], ◌∷◌,
  ◌++◌, length, take, pos, All,
}
use fortify.Ferrors.{Error, sentinel, deadline_exceeded}
use fortify.CircuitBreaker.Config.{set_defaults}
use fortify.CircuitBreaker.Breaker.{new}
use fortify.CircuitBreaker.Execute.{Call, fast_admit, execute}
use fortify.Timeout
use fortify.Http.Sanitize.{printable, is_ascii, key_limit, sanitize_key}
use fortify.Http.Sanitize.Laws.{printables, sanitize_key_ascii}
use fortify.Http.Recorder.{Use, writes, writes_header, writes_body, status_ok, new_recorder, serve}
use fortify.Http.Handlers.{gateway_timeout, status_gateway_timeout, timeout}
use fortify.Http.Handlers.Laws.{timeout_response}
use fortify.Grpc.Sanitize.{sanitize_metadata_key}
use fortify.Grpc.Sanitize.Laws.{Begins, metadata_key-Begins}
use fortify.Grpc.Interceptors.{status_of, code_unavailable, unary_circuit_breaker}
use fortify.Grpc.Interceptors.Laws.{unary_circuit_breaker_codes}
use fortify.StreamTimeout.{StreamError, stage_idle, stream_timeout_error}
use fortify.Http.Streaming.{
  StreamCall, new_writer, StreamUse, flushes, stream_serve, is_stream_timeout, error_out, flush_out,
  with_stream, circuit_breaker_stream,
}
use fortify.Http.Streaming.Laws.{begins, flushed, dropped, stream_response}
use fortify.Examples.Ratio.{ratio}
use fortify.Examples.BreakerCases.{config, at, nobody}

-- "a\nb"
abbrev key : List ℕ
key = 97 ∷ 10 ∷ 98 ∷ []

abbrev unicode : List ℕ → ℕ → List ℕ
unicode s n = take n s

sanitize_key_runs : sanitize_key unicode key (pos 2) ≡ 97 ∷ 98 ∷ []
unfolding sanitize_key
sanitize_key_runs = refl

sanitize_key_ascii_example :
    let out = sanitize_key unicode key (pos 2) in
    (out ≡ take (key_limit (pos 2)) (printables key))
    × All (λ c. printable c ≡ true) out
    × (length out ≤ key_limit (pos 2))
unfolding is_ascii
sanitize_key_ascii_example = sanitize_key_ascii unicode key (pos 2) refl

metadata_key-Begins_example :
    (sanitize_metadata_key key ≡ printables (take 256 key))
    × Begins (sanitize_metadata_key key) (sanitize_key unicode key (pos 0))
unfolding is_ascii
metadata_key-Begins_example = metadata_key-Begins unicode key refl

-- A handler that has begun a response when its context ends.
abbrev begun : List Use
begun = writes (104 ∷ 105 ∷ []) ∷ []

abbrev timeouts : Timeout.Config
timeouts = record { default_timeout = pos 0; on_timeout = false }

timeout_response_example :
    let served = serve begun new_recorder in
    let calls = timeout timeouts (pos 10) (some (sentinel deadline_exceeded)) none begun in
    ((served.written ≡ false)
      × (calls ≡ writes_header status_gateway_timeout ∷ writes_body gateway_timeout ∷ []))
    ⊎ ((served.written ≡ true)
        × (served.status_code ≡ status_ok)
        × (calls ≡ served.calls ++ (writes_body gateway_timeout ∷ [])))
    ⊎ ((served.written ≡ true) × (served.status_code ≢ status_ok) × (calls ≡ served.calls))
timeout_response_example =
    timeout_response timeouts (pos 10) (sentinel deadline_exceeded) none begun

-- A handler with an error of its own.
abbrev call : Call (Option ℕ)
call = record {
  ctx_err = none;
  fast_now = 1050;
  admitted_at = at 1050;
  completed_at = at 1060;
  result = (none, some (sentinel deadline_exceeded));
}

unary_circuit_breaker_codes_example :
    let out = execute none call nobody (new config 1000) in
    let response = (unary_circuit_breaker call nobody (new config 1000)).1 in
    ((out.ran ≡ true) × (call.result.1 ≡ none) × (response ≡ (call.result.0, none)))
    ⊎ ((out.ran ≡ true)
        × ((e : Error) × (call.result.1 ≡ some e)
            × (response ≡ (none, some (status_of code_unavailable e)))))
    ⊎ ((out.ran ≡ false)
        × ((e : Error) × (out.err ≡ some e)
            × (response ≡ (none, some (status_of code_unavailable e)))))
unary_circuit_breaker_codes_example = unary_circuit_breaker_codes call nobody (new config 1000)

-- A handler that has only flushed when its stream times out.
abbrev flushed_only : List StreamUse
flushed_only = flushes ∷ []

abbrev timed : Option StreamError
timed = some (stream_timeout_error stage_idle 20)

abbrev stream_call : Call ℕ
stream_call = record {
  ctx_err = none;
  fast_now = 1050;
  admitted_at = at 1050;
  completed_at = at 1060;
  result = (0, none);
}

stream_response_example :
    let out =
      execute 0 (with_stream true stream_call timed flushed_only) nobody (new config 1000) in
    let begun = out.ran && begins flushed_only in
    let sent : List StreamCall = if out.ran then flushed true flushed_only else [] in
    let timed_out = out.ran && is_stream_timeout timed in
    let calls =
      (circuit_breaker_stream true stream_call nobody timed flushed_only (new config 1000)).1 in
    ((begun ≡ true) × (calls ≡ (stream_serve true flushed_only new_writer).calls))
    ⊎ ((begun ≡ false) × (out.err ≡ none) × (calls ≡ sent))
    ⊎ ((begun ≡ false) × (timed_out ≡ true) × (calls ≡ sent ++ (error_out 504 ∷ [])))
    ⊎ ((e : Error) × (begun ≡ false)
        × (timed_out ≡ false)
        × (out.err ≡ some e)
        × (calls ≡ (if dropped e then sent else sent ++ (error_out 503 ∷ []))))
stream_response_example =
    stream_response true stream_call nobody timed flushed_only (new config 1000)

-- The text of the 504 goes behind the flush.
flushed_then_error :
    (circuit_breaker_stream true stream_call nobody timed flushed_only (new config 1000)).1
    ≡ flush_out ∷ error_out 504 ∷ []
unfolding circuit_breaker_stream execute new set_defaults fast_admit
    fortify.CircuitBreaker.Execute.run
flushed_then_error = refl
