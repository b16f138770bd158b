-- ===== src/CircuitBreaker/WindowTrips.antt =====
-- The trip of circuitbreaker/breaker.go on the failure rate of a count window, stated over the
-- history of outcomes.
use fortify.Base.{
  ℕ, ◌≡◌, refl, Bool, not, ◌&&◌, some, List, ◌∷◌, arith, Float64, pos, ltb_ℤ, min, length, take,
  if◌then◌else◌,
}
use fortify.CircuitBreaker.Counts.{state_closed, state_open}
use fortify.CircuitBreaker.CountWindow.{CountWindow, record_call, stats}
use fortify.CircuitBreaker.CountWindow.Refines.{Refines, count_failures, record_call-Refines}
use fortify.CircuitBreaker.SlidingWindow
use fortify.CircuitBreaker.SlidingWindow.{SlidingWindow, count_window}
use fortify.CircuitBreaker.Breaker.{CircuitBreaker, Moment, after_request}

record_call-size : (success : Bool) (w : CountWindow) → (record_call success w).size ≡ w.size
unfolding record_call
record_call-size success w = refl

module _ ⦃fl : Float64⦄ where
  -- Whether a history of outcomes, newest first, reaches the configured failure rate.
  abbrev pub rate_reached : ℕ → List Bool → CircuitBreaker → Bool
  rate_reached size h cb =
      let calls = min size (length h) in
      not (ltb_ℤ (pos calls) cb.config.minimum_calls)
      && fl.fleb cb.config.failure_rate_threshold
          (fl.fdiv (fl.of_nat (count_failures (take size h))) (fl.of_nat calls))

  -- On a closed breaker with a count window and no counting interval, a finished request of the
  -- current generation, successful or failed, opens the circuit exactly when the last `size`
  -- outcomes, this one included, are MinimumCalls at least and reach FailureRateThreshold, where the
  -- window holds the outcomes of a history.
  pub window_decides :
      (success : Bool) (generation : ℕ) (t : Moment) (h : List Bool) (w : CountWindow)
      (cb : CircuitBreaker)
      → cb.state ≡ state_closed
      → cb.generation ≡ generation
      → cb.config.interval ≡ pos 0
      → cb.window ≡ some (count_window w)
      → Refines h w
      → (after_request generation success t cb).state
        ≡ (if rate_reached w.size (not success ∷ h) cb then state_open else state_closed)
  unfolding after_request SlidingWindow.record_call SlidingWindow.stats stats
  window_decides success generation t h w cb s g i win r =
      let r' = record_call-Refines success h w r in
      ground (arith, r', r'.kept, r'.counted, record_call-size success w)
