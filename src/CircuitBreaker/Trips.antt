-- ===== src/CircuitBreaker/Trips.antt =====
-- When circuitbreaker/breaker.go changes state on the outcomes of requests: the trip at the
-- configured streak of failures, and the trials of a half-open breaker.
use fortify.Base.{
  ℕ, ◌+◌, ◌≤◌, ◌<◌, ◌≡◌, refl, Bool, true, false, none, some, List, [], ◌∷◌, map, ap, ◌∙◌, arith,
  Float64, ℤ, pos, max_uint32, length, add_duration,
}
use fortify.CircuitBreaker.Counts.{zero_counts, state_closed, state_open, state_half_open}
use fortify.CircuitBreaker.Predicates.{clamp_to_uint32, trip_on_consecutive_failures}
use fortify.CircuitBreaker.Breaker.{CircuitBreaker, Moment, after_request}
use fortify.CircuitBreaker.Execute.{Op, after_op, run, step}
use fortify.CircuitBreaker.Config.{Config}
use fortify.CircuitBreaker.Invariant.{Inv, step-Inv, run-Inv}

-- A threshold given as an int is kept if a uint32 counter can reach it, and is replaced by the
-- nearer end of [1, 2^32 - 1] otherwise.
pub clamp_to_uint32_range : (n : ℤ) → (0 < clamp_to_uint32 n) × (clamp_to_uint32 n ≤ max_uint32)
unfolding clamp_to_uint32
clamp_to_uint32_range n = ground arith

pub clamp_to_uint32_exact : (n : ℕ) → 0 < n → n ≤ max_uint32 → clamp_to_uint32 (pos n) ≡ n
unfolding clamp_to_uint32
clamp_to_uint32_exact n h k = ground arith

module _ ⦃fl : Float64⦄ where
  -- A closed breaker with no sliding window and no counting interval, whose ReadyToTrip is
  -- TripOnConsecutiveFailures(n).
  pub record Counting (n : ℤ) (cb : CircuitBreaker) : Type 0 where
    pub closed : cb.state ≡ state_closed
    pub no_window : cb.window ≡ none
    pub policy : cb.config.ready_to_trip ≡ some (trip_on_consecutive_failures n)
    pub no_interval : cb.config.interval ≡ pos 0

  failure_counted :
      (n : ℤ) (generation : ℕ) (t : Moment) (cb : CircuitBreaker)
      → Counting n cb
      → cb.generation ≡ generation
      → cb.counts.consecutive_failures + 1 < clamp_to_uint32 n
      → let cb' = after_request generation false t cb in
        Counting n cb'
        × (cb'.generation ≡ generation)
        × (cb'.config ≡ cb.config)
        × (cb'.counts.consecutive_failures ≡ cb.counts.consecutive_failures + 1)
  unfolding after_request trip_on_consecutive_failures
  failure_counted n generation t cb c g h = ground (arith, clamp_to_uint32_range n)

  failure_trips :
      (n : ℤ) (generation : ℕ) (t : Moment) (cb : CircuitBreaker)
      → Counting n cb
      → cb.generation ≡ generation
      → cb.counts.consecutive_failures + 1 ≡ clamp_to_uint32 n
      → let cb' = after_request generation false t cb in
        (cb'.state ≡ state_open) × (cb'.expiry ≡ add_duration t.now cb.config.timeout)
  unfolding after_request trip_on_consecutive_failures
  failure_trips n generation t cb c g h = ground (arith, clamp_to_uint32_range n)

  -- The outcomes of requests of one generation, all failed or all successful, reported one after
  -- the other.
  abbrev pub reports : Bool → ℕ → List Moment → List Op
  reports success generation = map (after_op generation success)

  -- A closed breaker without sliding window and interval, tripped by TripOnConsecutiveFailures(n),
  -- that is told failures of its generation only, stays closed, in that generation and with that
  -- configuration, and counts each failure, as long as its streak of failures is shorter than n
  -- (clamped to the numbers from 1 to the largest uint32).
  below_threshold :
      (n : ℤ) (generation : ℕ) (ts : List Moment) (cb : CircuitBreaker)
      → Counting n cb
      → cb.generation ≡ generation
      → cb.counts.consecutive_failures + length ts < clamp_to_uint32 n
      → let cb' = run (reports false generation ts) cb in
        Counting n cb'
        × (cb'.generation ≡ generation)
        × (cb'.config ≡ cb.config)
        × (cb'.counts.consecutive_failures ≡ cb.counts.consecutive_failures + length ts)
  unfolding run step
  below_threshold n generation [] cb c g h = (c, g, refl, omega arith)
  below_threshold n generation (t ∷ ts) cb c g h =
      let (c', g', f, k) = failure_counted n generation t cb c g (omega arith) in
      let (c'', g'', f', k') =
        below_threshold n generation ts (after_request generation false t cb) c' g' (omega arith) in
      (c'', g'', f' ∙ f, omega arith)

  -- On a closed breaker without sliding window and interval, tripped by
  -- TripOnConsecutiveFailures(n), the failure that makes a streak of failures of its generation n
  -- long (n clamped to the numbers from 1 to the largest uint32) opens the circuit, with an expiry
  -- of Timeout after the instant of that failure, and no failure before it does.
  pub trips_at_threshold :
      (n : ℤ) (generation : ℕ) (ts : List Moment) (t : Moment) (cb : CircuitBreaker)
      → Counting n cb
      → cb.generation ≡ generation
      → cb.counts.consecutive_failures + length ts + 1 ≡ clamp_to_uint32 n
      → let before = run (reports false generation ts) cb in
        let cb' = after_request generation false t before in
        (before.state ≡ state_closed)
        × (cb'.state ≡ state_open)
        × (cb'.expiry ≡ add_duration t.now cb.config.timeout)
  trips_at_threshold n generation ts t cb c g h =
      let (c', g', f, k) = below_threshold n generation ts cb c g (omega arith) in
      let cb' = run (reports false generation ts) cb in
      let (s, e) = failure_trips n generation t cb' c' g' (omega arith) in
      (c'.closed, s, e ∙ ap (λ (x : Config). add_duration t.now x.timeout) f)

  trial_succeeds :
      (generation : ℕ) (t : Moment) (cb : CircuitBreaker)
      → Inv cb
      → cb.state ≡ state_half_open
      → cb.generation ≡ generation
      → cb.counts.consecutive_successes + 1 < cb.config.max_requests
      → let cb' = after_request generation true t cb in
        (cb'.state ≡ state_half_open)
        × (cb'.generation ≡ generation)
        × (cb'.config ≡ cb.config)
        × (cb'.counts.consecutive_successes ≡ cb.counts.consecutive_successes + 1)
  unfolding after_request
  trial_succeeds generation t cb v s g h = ground arith

  last_trial_succeeds :
      (generation : ℕ) (t : Moment) (cb : CircuitBreaker)
      → Inv cb
      → cb.state ≡ state_half_open
      → cb.generation ≡ generation
      → cb.counts.consecutive_successes + 1 ≡ cb.config.max_requests
      → let cb' = after_request generation true t cb in
        (cb'.state ≡ state_closed)
        × (cb'.counts ≡ zero_counts)
        × (cb'.expiry ≡ add_duration t.now cb.config.interval)
  unfolding after_request
  last_trial_succeeds generation t cb v s g h = ground arith

  trial_fails :
      (generation : ℕ) (t : Moment) (cb : CircuitBreaker)
      → cb.state ≡ state_half_open
      → cb.generation ≡ generation
      → let cb' = after_request generation false t cb in
        (cb'.state ≡ state_open) × (cb'.expiry ≡ add_duration t.now cb.config.timeout)
  unfolding after_request
  trial_fails generation t cb s g = ground arith

  trials :
      (generation : ℕ) (ts : List Moment) (cb : CircuitBreaker)
      → Inv cb
      → cb.state ≡ state_half_open
      → cb.generation ≡ generation
      → cb.counts.consecutive_successes + length ts < cb.config.max_requests
      → let cb' = run (reports true generation ts) cb in
        (cb'.state ≡ state_half_open)
        × (cb'.generation ≡ generation)
        × (cb'.config ≡ cb.config)
        × (cb'.counts.consecutive_successes ≡ cb.counts.consecutive_successes + length ts)
  unfolding run step
  trials generation [] cb v s g h = (s, g, refl, omega arith)
  trials generation (t ∷ ts) cb v s g h =
      let (s', g', f, k) = trial_succeeds generation t cb v s g (omega arith) in
      let cb' = after_request generation true t cb in
      let v' = step-Inv (after_op generation true t) cb v in
      let (s'', g'', f', k') =
        trials generation ts cb' v' s' g' (omega (arith, ap (λ (x : Config). x.max_requests) f)) in
      (s'', g'', f' ∙ f, omega arith)

  -- A half-open breaker that satisfies the invariant and is told successes of its generation only
  -- stays half-open up to the MaxRequests-th success in a row, which closes it with zero counters
  -- and an expiry of Interval after the instant of that success.
  trials_close :
      (generation : ℕ) (ts : List Moment) (t : Moment) (cb : CircuitBreaker)
      → Inv cb
      → cb.state ≡ state_half_open
      → cb.generation ≡ generation
      → cb.counts.consecutive_successes + length ts + 1 ≡ cb.config.max_requests
      → let trying = run (reports true generation ts) cb in
        let cb' = after_request generation true t trying in
        (trying.state ≡ state_half_open)
        × (cb'.state ≡ state_closed)
        × (cb'.counts ≡ zero_counts)
        × (cb'.expiry ≡ add_duration t.now cb.config.interval)
  trials_close generation ts t cb v s g h =
      let (s', g', f, k) = trials generation ts cb v s g (omega arith) in
      let trying = run (reports true generation ts) cb in
      let v' = run-Inv (reports true generation ts) cb v in
      let (c, z, x) =
        last_trial_succeeds generation t trying v' s' g'
          (omega (arith, ap (λ (x : Config). x.max_requests) f)) in
      (s', c, z, x ∙ ap (λ (x : Config). add_duration t.now x.interval) f)

  -- A half-open breaker that satisfies the invariant opens again at a failure of its generation
  -- after fewer than MaxRequests successes of that generation in a row, with an expiry of Timeout
  -- after the instant of that failure.
  trials_reopen :
      (generation : ℕ) (ts : List Moment) (t : Moment) (cb : CircuitBreaker)
      → Inv cb
      → cb.state ≡ state_half_open
      → cb.generation ≡ generation
      → cb.counts.consecutive_successes + length ts < cb.config.max_requests
      → let cb' = after_request generation false t (run (reports true generation ts) cb) in
        (cb'.state ≡ state_open) × (cb'.expiry ≡ add_duration t.now cb.config.timeout)
  trials_reopen generation ts t cb v s g h =
      let (s', g', f, k) = trials generation ts cb v s g h in
      let (o, e) = trial_fails generation t (run (reports true generation ts) cb) s' g' in
      (o, e ∙ ap (λ (x : Config). add_duration t.now x.timeout) f)
