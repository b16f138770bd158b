-- ===== src/Retry/Delays.antt =====
-- The delays of retry/backoff.go and retry/retry.go.
use fortify.Base.{
  ℕ, zero, suc, ◌≤◌, ◌<◌, ◌≡◌, true, false, ◌⊎◌, Option, none, arith, Float64, All, pos_part,
}
use fortify.Ferrors.{Error}
use fortify.Retry.Config.{BackoffPolicy, Config, set_defaults}
use fortify.Retry.Backoff.{max_backoff_duration, raw_delay, guarded, capped, calculate_backoff}
use fortify.Retry.Loop.{Attempt, delay_after, loop, execute}

-- What the conversion of a float64 to an integer does at the cap of 24 hours, which float64 holds
-- exactly: a number that is not above the cap, nor negative, becomes an integer not above it.
abbrev pub TruncBelow : Float64 → Type 0
TruncBelow fl =
    (x : fl.F)
    → fl.is_nan x ≡ false
    → fl.fltb (fl.of_nat max_backoff_duration) x ≡ false
    → fl.fltb x (fl.of_nat 0) ≡ false
    → fl.trunc x ≤ max_backoff_duration

abbrev pub TruncExact : Float64 → Type 0
TruncExact fl = fl.trunc (fl.of_nat max_backoff_duration) ≤ max_backoff_duration

module _ ⦃fl : Float64⦄ where
  module _ (below : TruncBelow fl) (exact : TruncExact fl) where
    guarded_bound : (x : fl.F) → guarded x ≤ max_backoff_duration
    unfolding guarded
    guarded_bound x = ground (arith, below x, exact)

    capped_bound :
        (policy : BackoffPolicy) (attempt initial_delay max_delay : ℕ) (multiplier : fl.F)
        → capped policy attempt initial_delay max_delay multiplier ≤ max_backoff_duration
    unfolding capped
    capped_bound policy attempt initial_delay max_delay multiplier =
        ground (arith, guarded_bound (raw_delay policy attempt initial_delay multiplier))

  capped_max :
      (policy : BackoffPolicy) (attempt initial_delay max_delay : ℕ) (multiplier : fl.F)
      → 0 < max_delay
      → capped policy attempt initial_delay max_delay multiplier ≤ max_delay
  unfolding capped
  capped_max policy attempt initial_delay max_delay multiplier h = ground arith

  capped-eq :
      (policy : BackoffPolicy) (attempt initial_delay max_delay : ℕ) (multiplier : fl.F)
      → 0 < max_delay
      → max_delay ≤ guarded (raw_delay policy attempt initial_delay multiplier)
      → capped policy attempt initial_delay max_delay multiplier ≡ max_delay
  unfolding capped
  capped-eq policy attempt initial_delay max_delay multiplier h k = ground arith

  -- The delay fits the configuration: 24 hours at most, and MaxDelay at most if that is positive.
  pub record Fits (c : Config) (delay : ℕ) : Type 0 where
    pub day : delay ≤ max_backoff_duration
    pub configured : (pos_part c.max_delay ≡ 0) ⊎ (delay ≤ pos_part c.max_delay)

  module _ (below : TruncBelow fl) (exact : TruncExact fl) where
    delay_after-Fits :
        (c : Config) (attempt : ℕ) (random : fl.F)
        → c.jitter ≡ false
        → Fits c (delay_after c attempt random)
    unfolding delay_after calculate_backoff
    delay_after-Fits c attempt random h =
        let d = pos_part c.initial_delay in
        let m = pos_part c.max_delay in
        ground (
          arith,
          capped_bound below exact c.backoff_policy attempt d m c.multiplier,
          capped_max c.backoff_policy attempt d m c.multiplier,
        )

    module _ {T : Type 0} (c : Config) (world : ℕ → Attempt T) (plain : c.jitter ≡ false) where
      loop_delays :
          (left a : ℕ) (r : T × Option Error) → All (Fits c) (loop c world left a r).delays
      unfolding loop
      loop_delays zero a (v, e) = tt
      loop_delays (suc left) a (v, e) = ground (
        arith,
        loop_delays left (suc a) (world a).result,
        delay_after-Fits c a (world a).random plain,
      )

    -- Without jitter every wait of Execute is 24 hours at most, and MaxDelay at most where that is
    -- positive, whatever the policy, the multiplier and the number of attempts, if the conversion
    -- from float64 gives no more than 24 hours for a number of 24 hours or less.
    pub execute_delays :
        {T : Type 0} (c : Config) (zero_value : T) (world : ℕ → Attempt T)
        → c.jitter ≡ false
        → All (Fits (set_defaults c)) (execute c zero_value world).delays
    unfolding execute set_defaults
    execute_delays c zero_value world h =
        loop_delays (set_defaults c) world h (pos_part (set_defaults c).max_attempts) 1
          (zero_value, none)

  -- With jitter, a delay that reaches a positive MaxDelay ends up above MaxDelay whenever the jitter
  -- drawn for MaxDelay is not 0.
  jitter_passes_max_delay :
      (policy : BackoffPolicy) (attempt initial_delay max_delay : ℕ) (multiplier random : fl.F)
      → 0 < max_delay
      → max_delay ≤ guarded (raw_delay policy attempt initial_delay multiplier)
      → 0 < fl.trunc (fl.fmul (fl.fmul random (fl.of_nat max_delay)) (fl.literal 1 10))
      → max_delay < calculate_backoff policy attempt initial_delay max_delay multiplier true random
  unfolding calculate_backoff
  jitter_passes_max_delay policy attempt initial_delay max_delay multiplier random h k j =
      ground (arith, capped-eq policy attempt initial_delay max_delay multiplier h k)
