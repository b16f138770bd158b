-- ===== src/Http/Streaming/Laws.antt =====
-- Which responses CircuitBreakerStream of http/streaming.go gives.
use fortify.Base.{
  not, ◌||◌, ap, sym, if◌then◌else◌, Option-cases, inl, inr, ℕ, ◌≡◌, refl, Bool, true, false, ◌&&◌,
  if◌then◌else◌, ◌⊎◌, Option, none, some, List, [], ◌∷◌, ◌++◌, Float64, arith,
}
use fortify.CircuitBreaker.Breaker.{CircuitBreaker}
use fortify.CircuitBreaker.Execute.{Call, Others, execute}
use fortify.CircuitBreaker.Admission.{execute_result}
use fortify.Ferrors.{Error, is, err_circuit_open, canceled, deadline_exceeded}
use fortify.StreamTimeout.{StreamError}
use fortify.Http.Streaming.{
  StreamCall, flush_out, sets, sends, flushes, stream_header, stream_write, flush, error_out,
  StreamingResponseWriter, new_writer, StreamUse, stream_serve, is_stream_timeout, answer,
  with_stream, circuit_breaker_stream,
}

-- The handler begins its response by WriteHeader or Write.
abbrev pub begins : List StreamUse → Bool
begins [] = false
begins (sets n ∷ uses) = true
begins (sends b n ∷ uses) = true
begins (flushes ∷ uses) = begins uses

-- One flush of the writer below for each use, if it is a Flusher.
abbrev pub flushed : Bool → List StreamUse → List StreamCall
flushed flusher [] = []
flushed flusher (u ∷ uses) =
    let rest = flushed flusher uses in if flusher then flush_out ∷ rest else rest

-- No error is written: the context of the request has ended.
abbrev pub dropped : Error → Bool
dropped e = not (is e err_circuit_open) && (is e canceled || is e deadline_exceeded)

append-cons :
    (xs : List StreamCall) (c : StreamCall) (ys : List StreamCall)
    → (xs ++ (c ∷ [])) ++ ys ≡ xs ++ (c ∷ ys)
append-cons [] c ys = refl
append-cons (x ∷ xs) c ys = ap (λ zs. x ∷ zs) (append-cons xs c ys)

append_none : (xs : List StreamCall) → xs ++ [] ≡ xs
append_none [] = refl
append_none (x ∷ xs) = ap (λ zs. x ∷ zs) (append_none xs)

written_stays :
    (flusher : Bool) (uses : List StreamUse) (s : StreamingResponseWriter)
    → s.written ≡ true
    → (stream_serve flusher uses s).written ≡ true
unfolding stream_serve stream_header stream_write flush
written_stays flusher [] s h = h
written_stays flusher (sets n ∷ uses) s h =
    written_stays flusher uses (stream_header n s) (ground (arith, h))
written_stays flusher (sends b n ∷ uses) s h =
    written_stays flusher uses (stream_write b n s) (ground (arith, h))
written_stays flusher (flushes ∷ uses) s h = written_stays flusher uses (flush flusher s) h

-- A response that is not begun holds flushes only.
stream_serve-begins :
    (flusher : Bool) (uses : List StreamUse) (s : StreamingResponseWriter)
    → s.written ≡ false
    → let s' = stream_serve flusher uses s in
      ((begins uses ≡ true) × (s'.written ≡ true))
      ⊎ ((begins uses ≡ false)
          × (s'.written ≡ false)
          × (s'.calls ≡ s.calls ++ flushed flusher uses))
unfolding stream_serve stream_header stream_write flush
stream_serve-begins flusher [] s h = inr (refl, h, sym (append_none s.calls))
stream_serve-begins flusher (sets n ∷ uses) s h =
    inl (refl, written_stays flusher uses (stream_header n s) (ground (arith, h)))
stream_serve-begins flusher (sends b n ∷ uses) s h =
    inl (refl, written_stays flusher uses (stream_write b n s) (ground (arith, h)))
stream_serve-begins true (flushes ∷ uses) s h = ground (
  arith,
  stream_serve-begins true uses (flush true s) h,
  append-cons s.calls flush_out (flushed true uses),
)
stream_serve-begins false (flushes ∷ uses) s h =
    ground (arith, stream_serve-begins false uses (flush false s) h)

module _ ⦃fl : Float64⦄ where
  -- CircuitBreakerStream leaves alone a response that the handler has begun by WriteHeader or Write,
  -- whatever the error. Otherwise what went out are the flushes of the handler, since Flush does not
  -- count as the begin of a response, and behind them comes nothing when there is no error or the
  -- context of the request has ended, 504 after a stream timeout, and 503 for every other error.
  pub stream_response :
      (flusher : Bool) (call : Call ℕ) (others : Others) (timed : Option StreamError)
      (uses : List StreamUse) (cb : CircuitBreaker)
      → let out = execute 0 (with_stream flusher call timed uses) others cb in
        let begun = out.ran && begins uses in
        let sent : List StreamCall = if out.ran then flushed flusher uses else [] in
        let timed_out = out.ran && is_stream_timeout timed in
        let calls = (circuit_breaker_stream flusher call others timed uses cb).1 in
        ((begun ≡ true) × (calls ≡ (stream_serve flusher uses new_writer).calls))
        ⊎ ((begun ≡ false) × (out.err ≡ none) × (calls ≡ sent))
        ⊎ ((begun ≡ false) × (timed_out ≡ true) × (calls ≡ sent ++ (error_out 504 ∷ [])))
        ⊎ ((e : Error) × (begun ≡ false)
            × (timed_out ≡ false)
            × (out.err ≡ some e)
            × (calls ≡ (if dropped e then sent else sent ++ (error_out 503 ∷ []))))
  unfolding circuit_breaker_stream answer
  stream_response flusher call others timed uses cb =
      let call' = with_stream flusher call timed uses in
      let result = execute_result 0 call' others cb in
      let served = stream_serve-begins flusher uses new_writer refl in
      elim (Option-cases (execute 0 call' others cb).err) [
        | inl fine ↦ ground (arith, result, served, fine)
        | inr (e, failed) ↦ ground (arith, result, served, failed)
      ]
