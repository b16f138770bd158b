-- ===== src/RateLimit/Wait.antt =====
-- Wait of ratelimit/limiter.go. What the clock, the context and the store meet in each round is an
-- argument.
pub mod Laws
use fortify.Base.{
  ℕ, zero, suc, ◌+◌, ◌≤◌, ◌<◌, ◌≡◌, ◌≢◌, refl, Bool, true, false, not, ◌⊎◌, inl, inr, Option, none,
  some, List, [], ◌∷◌, All, arith, Float64, if◌then◌else◌, ltb, ◌==◌, Option-cases, Bool-cases,
}
use fortify.Ferrors.{Error}
use fortify.RateLimit.Errors.{
  Key, Context, LimitError, err_rate_limiter_closed, err_wait_timeout, context_error,
}
use fortify.RateLimit.Bucket.{Rates}
use fortify.RateLimit.Store.{Visit, Store}
use fortify.RateLimit.Limiter.{
  RateLimiter, resolve_key, try_consume, handle_error, calculate_wait_time,
}

-- 10 ms, 100 ms, 5 min.
abbrev pub default_min_wait_duration : ℕ
default_min_wait_duration = 10000000

abbrev pub default_max_wait_duration : ℕ
default_max_wait_duration = 100000000

abbrev pub default_max_wait_iterations : ℕ
default_max_wait_iterations = 10000

abbrev pub default_max_total_wait_time : ℕ
default_max_total_wait_time = 300000000000

-- One round of the loop: time.Since(start), `ctx.Err()`, the visits of tryConsume and
-- calculateWaitTime, and how the wait ends (none: the timer fires).
pub record Round : Type 0 where
  pub since_start : ℕ
  pub ctx_err : Option Error
  pub visit : Visit
  pub get_visit : Visit
  pub interrupted : Option Error

module _ ⦃fl : Float64⦄ (S : Store) where
  -- What Wait returns, how often it tried the bucket, and the waits in between, in order.
  pub record Waited : Type 0 where
    pub limiter : RateLimiter S
    pub err : Option LimitError
    pub tries : ℕ
    pub delays : List ℕ

  -- The tests that replace a wait of 0 and cap it.
  unfoldable pub wait_duration : ℕ → ℕ
  wait_duration d =
      let d' = if d == 0 then default_min_wait_duration else d in
      if ltb default_max_wait_duration d' then default_max_wait_duration else d'

  abbrev done : RateLimiter S → Option LimitError → ℕ → List ℕ → Waited
  done rl err tries delays = record { limiter = rl; err = err; tries = tries; delays = delays }

  -- The end of a round that took no token: the wait, and the rounds after it.
  unfoldable pub pause : RateLimiter S → ℕ → Option Error → Waited → Waited
  pause rl delay (some e) rest = done rl (some (context_error e)) 1 (delay ∷ [])
  pause rl delay none rest = record rest { tries = rest.tries + 1; delays = delay ∷ rest.delays }

  -- A round after tryConsume, with its `allowed` and its error. When the store has failed and the
  -- limiter fails closed, `allowed` counts all the same.
  unfoldable pub after_try :
      RateLimiter S → Bool → Option LimitError → ℕ → Option Error → Waited → Waited
  unfolding pause
  after_try rl allowed none delay interrupted rest =
      if allowed then done rl none 1 [] else pause rl delay interrupted rest
  after_try rl allowed (some e) delay interrupted rest =
      if handle_error S rl
      then done rl none 1 []
      else if allowed
      then done rl none 1 []
      else pause rl delay interrupted rest

  -- The loop with `left` iterations to go.
  unfoldable pub wait_loop : (ℕ → Round) → Key → ℕ → ℕ → RateLimiter S → Waited
  unfolding wait_duration after_try
  wait_loop world key zero i rl = done rl (some err_wait_timeout) 0 []
  wait_loop world key (suc left) i rl =
      let now = world i in
      let (rl', allowed, err) = try_consume S now.visit key 1 rl in
      let delay = wait_duration (calculate_wait_time S now.get_visit key rl') in
      let rest = wait_loop world key left (suc i) rl' in
      let tried = after_try rl' allowed err delay now.interrupted rest in
      if ltb default_max_total_wait_time now.since_start
      then done rl (some err_wait_timeout) 0 []
      else elim now.ctx_err [ some e ↦ done rl (some (context_error e)) 0 [] | none ↦ tried ]

  unfoldable pub unless_closed : Bool → (ℕ → Round) → Key → ℕ → RateLimiter S → Waited
  unfolding wait_loop
  unless_closed closed world key left rl =
      if closed then done rl (some err_rate_limiter_closed) 0 [] else wait_loop world key left 0 rl

  unfoldable pub wait : (ℕ → Round) → Context → Key → RateLimiter S → Waited
  wait world ctx key rl =
      unless_closed rl.closed world (resolve_key S rl.rates.config ctx key)
        default_max_wait_iterations rl
