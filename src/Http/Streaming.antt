-- ===== src/Http/Streaming.antt =====
-- http/streaming.go: streamingResponseWriter, and CircuitBreakerStream around a handler, which is the list
-- of what it does with its writer. Hijack and Push, which only forward, are left out.
pub mod Laws
use fortify.Base.{
  ℕ, ◌+◌, Bool, true, false, ◌&&◌, ◌||◌, if◌then◌else◌, ltb, leb, Option, none, some, List, [], ◌∷◌,
  ◌++◌, Float64,
}
use fortify.Ferrors.{
  Error, sentinel, joined, is, err_timeout, err_circuit_open, canceled, deadline_exceeded,
}
use fortify.CircuitBreaker.Breaker.{CircuitBreaker}
use fortify.CircuitBreaker.Execute.{Call, Others, execute}
use fortify.StreamTimeout.{StreamError, parent_error, operation_error, stream_timeout_error}

-- The calls that the ResponseWriter of net/http receives.
pub data StreamCall : Type 0 where
  header_out : ℕ → StreamCall
  body_out : List ℕ → StreamCall
  flush_out : StreamCall
  error_out : ℕ → StreamCall

-- `marks` counts the calls of mark.
pub record StreamingResponseWriter : Type 0 where
  pub calls : List StreamCall
  pub status_code : ℕ
  pub written : Bool
  pub marks : ℕ

abbrev pub new_writer : StreamingResponseWriter
new_writer = record { calls = []; status_code = 200; written = false; marks = 0 }

unfoldable pub stream_header : ℕ → StreamingResponseWriter → StreamingResponseWriter
stream_header status s = if s.written then s else record s {
  status_code = status;
  written = true;
  calls = s.calls ++ (header_out status ∷ []);
}

-- Write, of which the writer below takes n bytes.
unfoldable pub stream_write : List ℕ → ℕ → StreamingResponseWriter → StreamingResponseWriter
unfolding stream_header
stream_write b n s =
    let begun = stream_header 200 s in
    record begun {
      calls = begun.calls ++ (body_out b ∷ []);
      marks = if ltb 0 n then begun.marks + 1 else begun.marks;
    }

-- Flush; `flusher` says whether the writer below is a Flusher.
unfoldable pub flush : Bool → StreamingResponseWriter → StreamingResponseWriter
flush flusher s = record s {
  calls = if flusher then s.calls ++ (flush_out ∷ []) else s.calls;
  marks = s.marks + 1;
}

pub data StreamUse : Type 0 where
  sets : ℕ → StreamUse
  sends : List ℕ → ℕ → StreamUse
  flushes : StreamUse

unfoldable pub stream_serve :
    Bool → List StreamUse → StreamingResponseWriter → StreamingResponseWriter
unfolding stream_header stream_write flush
stream_serve flusher [] s = s
stream_serve flusher (sets n ∷ uses) s = stream_serve flusher uses (stream_header n s)
stream_serve flusher (sends b n ∷ uses) s = stream_serve flusher uses (stream_write b n s)
stream_serve flusher (flushes ∷ uses) s = stream_serve flusher uses (flush flusher s)

-- An error of st.Execute as errors.Is sees it.
unfoldable pub seen_error : StreamError → Error
seen_error (parent_error e) = e
seen_error (operation_error e) = e
seen_error (stream_timeout_error stage elapsed) =
    joined (sentinel err_timeout) (sentinel deadline_exceeded)

-- errors.As at *StreamTimeoutError.
unfoldable pub is_stream_timeout : Option StreamError → Bool
is_stream_timeout none = false
is_stream_timeout (some (parent_error e)) = false
is_stream_timeout (some (operation_error e)) = false
is_stream_timeout (some (stream_timeout_error stage elapsed)) = true

-- What the operation returns to the breaker: `timed` is the error of st.Execute.
unfoldable pub stream_result : Option StreamError → StreamingResponseWriter → ℕ × Option Error
unfolding seen_error
stream_result (some e) s = (504, some (seen_error e))
stream_result none s =
    if leb 500 s.status_code
    then (s.status_code, some (sentinel err_circuit_open))
    else (s.status_code, none)

-- The end of the handler, with the error of the breaker.
unfoldable pub answer : Error → Bool → StreamingResponseWriter → List StreamCall
answer e timed_out s =
    if s.written
    then s.calls
    else if timed_out
    then s.calls ++ (error_out 504 ∷ [])
    else if is e err_circuit_open
    then s.calls ++ (error_out 503 ∷ [])
    else if is e canceled || is e deadline_exceeded
    then s.calls
    else s.calls ++ (error_out 503 ∷ [])

module _ ⦃fl : Float64⦄ where
  abbrev pub with_stream : Bool → Call ℕ → Option StreamError → List StreamUse → Call ℕ
  with_stream flusher call timed uses = record call {
    result = stream_result timed (stream_serve flusher uses new_writer);
  }

  -- The handler that CircuitBreakerStream returns.
  unfoldable pub circuit_breaker_stream :
      Bool
      → Call ℕ
      → Others
      → Option StreamError
      → List StreamUse
      → CircuitBreaker
      → CircuitBreaker × List StreamCall
  unfolding stream_serve stream_result is_stream_timeout answer
  circuit_breaker_stream flusher call others timed uses cb =
      let out = execute 0 (with_stream flusher call timed uses) others cb in
      let s = if out.ran then stream_serve flusher uses new_writer else new_writer in
      elim out.err [
        | none ↦ (out.breaker, s.calls)
        | some e ↦ (out.breaker, answer e (out.ran && is_stream_timeout timed) s)
      ]
