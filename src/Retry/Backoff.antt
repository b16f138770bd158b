-- ===== src/Retry/Backoff.antt =====
-- retry/backoff.go. Durations are numbers of nanoseconds.
use fortify.Base.{ℕ, ◌+◌, ◌-◌, Bool, ◌||◌, ◌&&◌, ltb, ◌==◌, if◌then◌else◌, Float64}
use fortify.Retry.Config.{
  BackoffPolicy, backoff_exponential, backoff_linear, backoff_constant, other,
}

-- 24 hours
abbrev pub max_backoff_duration : ℕ
max_backoff_duration = 86400000000000

module _ ⦃fl : Float64⦄ where
  -- The switch over the policy.
  unfoldable pub raw_delay : BackoffPolicy → ℕ → ℕ → fl.F → fl.F
  raw_delay backoff_exponential attempt initial_delay multiplier =
      fl.fmul (fl.of_nat initial_delay) (fl.fpow multiplier (attempt - 1))
  raw_delay backoff_linear attempt initial_delay multiplier =
      fl.fmul (fl.of_nat initial_delay) (fl.of_nat attempt)
  raw_delay backoff_constant attempt initial_delay multiplier = fl.of_nat initial_delay
  raw_delay other attempt initial_delay multiplier = fl.of_nat initial_delay

  -- `random` is the draw of rand.Float64().
  unfoldable pub add_jitter : fl.F → ℕ → ℕ
  add_jitter random delay =
      if delay == 0
      then 0
      else delay + fl.trunc (fl.fmul (fl.fmul random (fl.of_nat delay)) (fl.literal 1 10))

  -- The guard against NaN, Inf and overflow, and the conversion.
  unfoldable pub guarded : fl.F → ℕ
  guarded delay_f =
      let cap = fl.of_nat max_backoff_duration in
      fl.trunc (
        if fl.is_nan delay_f
          || (fl.is_inf delay_f || (fl.fltb cap delay_f || fl.fltb delay_f (fl.of_nat 0)))
        then cap
        else delay_f)

  -- The delay before jitter: MaxDelay applies if it is positive.
  unfoldable pub capped : BackoffPolicy → ℕ → ℕ → ℕ → fl.F → ℕ
  unfolding raw_delay guarded
  capped policy attempt initial_delay max_delay multiplier =
      let delay = guarded (raw_delay policy attempt initial_delay multiplier) in
      if ltb 0 max_delay && ltb max_delay delay then max_delay else delay

  unfoldable pub calculate_backoff : BackoffPolicy → ℕ → ℕ → ℕ → fl.F → Bool → fl.F → ℕ
  unfolding capped add_jitter
  calculate_backoff policy attempt initial_delay max_delay multiplier jitter random =
      let delay = capped policy attempt initial_delay max_delay multiplier in
      if jitter then add_jitter random delay else delay
