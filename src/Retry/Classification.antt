-- ===== src/Retry/Classification.antt =====
-- Which errors retry/retry.go retries.
use fortify.Base.{
  ℕ, ◌≡◌, true, false, not, ◌||◌, none, some, [], arith, Float64, ◌≤◌, ◌<◌, leb, leb→le, Bool-cases,
  inl, inr,
}
use fortify.Ferrors
use fortify.Ferrors.{
  Error, Sentinel, circuit_open_error, CircuitOpenError, is, err_circuit_open, wrapped,
  as_retryable,
}
use fortify.Retry.Config.{Config, set_defaults}
use fortify.Retry.Loop.{is_retryable, matches, Attempt, execute}
use fortify.Retry.Attempts.{execute_retried}

module _ ⦃fl : Float64⦄ where
  -- With no predicate and no lists, an error is retried exactly when it is marked retryable or is
  -- not the rejection by an open circuit.
  default_classification :
      (c : Config) (e : Error)
      → c.is_retryable ≡ none
      → c.non_retryable_errors ≡ []
      → c.retryable_errors ≡ []
      → is_retryable c e ≡ (Ferrors.is_retryable (some e) || not (is e err_circuit_open))
  unfolding is_retryable
  default_classification c e p n r = ground arith

  -- An error that is not to be retried, of the call numbered i, ends Execute.
  pub not_retried_stops :
      {T : Type 0} (c : Config) (zero_value : T) (world : ℕ → Attempt T) (i : ℕ) (e : Error)
      → ((i : ℕ) → (world i).ctx_err ≡ none)
      → ((i : ℕ) → (world i).interrupted ≡ none)
      → 0 < i
      → (world i).result.1 ≡ some e
      → is_retryable (set_defaults c) e ≡ false
      → (execute c zero_value world).calls ≤ i
  not_retried_stops c zero_value world i e live waits h fails stops =
      elim (Bool-cases (leb (execute c zero_value world).calls i)) [
        | inl few ↦ leb→le _ _ few
        | inr many ↦
            ground (arith, stops, execute_retried c zero_value world live waits i h (ground arith))
      ]

  -- With no predicate and no lists, the rejection by an open circuit (of a circuit breaker inside
  -- the operation), unless it is marked retryable, ends Execute: while the context lives, no call
  -- follows the call numbered i that returns it.
  circuit_open_stops :
      {T : Type 0} (c : Config) (zero_value : T) (world : ℕ → Attempt T) (i : ℕ) (e : Error)
      → c.is_retryable ≡ none
      → c.non_retryable_errors ≡ []
      → c.retryable_errors ≡ []
      → ((i : ℕ) → (world i).ctx_err ≡ none)
      → ((i : ℕ) → (world i).interrupted ≡ none)
      → 0 < i
      → (world i).result.1 ≡ some e
      → is e err_circuit_open ≡ true
      → Ferrors.is_retryable (some e) ≡ false
      → (execute c zero_value world).calls ≤ i
  unfolding set_defaults
  circuit_open_stops c zero_value world i e p n r live waits h fails opens plain =
      not_retried_stops c zero_value world i e live waits h fails
        (ground (arith, default_classification (set_defaults c) e p n r, opens, plain))

  -- With no predicate, an error that NonRetryableErrors matches ends Execute too, whatever
  -- RetryableErrors says.
  listed_stops :
      {T : Type 0} (c : Config) (zero_value : T) (world : ℕ → Attempt T) (i : ℕ) (e : Error)
      → c.is_retryable ≡ none
      → matches e c.non_retryable_errors ≡ true
      → ((i : ℕ) → (world i).ctx_err ≡ none)
      → ((i : ℕ) → (world i).interrupted ≡ none)
      → 0 < i
      → (world i).result.1 ≡ some e
      → (execute c zero_value world).calls ≤ i
  unfolding set_defaults is_retryable
  listed_stops c zero_value world i e p n live waits h fails =
      not_retried_stops c zero_value world i e live waits h fails (ground (arith, p, n))
