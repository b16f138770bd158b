-- ===== src/RateLimit/Limiter.antt =====
-- The limiter of ratelimit/limiter.go over any store.
pub mod Grants
pub mod Instant
pub mod Burst
use fortify.Base.{
  ℕ, Bool, true, false, not, ◌&&◌, ◌||◌, if◌then◌else◌, Option, none, some, Float64, ℤ, pos, is_pos,
  pos_part, ltb_ℤ, negsuc,
}
use fortify.Ferrors.{Error}
use fortify.RateLimit.Errors.{
  Key, Context, LimitError, err_rate_limiter_closed, err_invalid_token_count, err_excessive_tokens,
  rate_limit_error, operation_error, context_error,
}
use fortify.RateLimit.Config.{Config}
use fortify.RateLimit.LogKey.{sanitize_log_key}
use fortify.RateLimit.Bucket.{BucketState, Rates, consume, wait_time}
use fortify.RateLimit.Store.{Visit, Updated, Store}

module _ ⦃fl : Float64⦄ (S : Store) where
  pub record RateLimiter : Type 0 where
    pub rates : Rates
    pub closed : Bool
    pub store : S.State

  unfoldable pub resolve_key : Config → Context → Key → Key
  resolve_key c ctx key = elim c.key_func [ some f ↦ f ctx key | none ↦ key ]

  -- `allowed` is what the last run of the update function stored in it, false if it did not run.
  unfoldable pub try_consume :
      Visit → Key → ℕ → RateLimiter → RateLimiter × Bool × Option LimitError
  try_consume v key tokens_needed rl =
      let update : Option BucketState → Option BucketState =
        λ s. some (consume rl.rates tokens_needed v.now s).0 in
      let u = S.atomic_update v key update rl.store in
      let allowed : Bool = elim u.seen [
        | none ↦ false
        | some s ↦ (consume rl.rates tokens_needed v.now s).1
      ] in
      (record rl { store = u.store }, allowed, u.err)

  -- handleError
  unfoldable pub handle_error : RateLimiter → Bool
  handle_error rl = rl.rates.config.fail_open

  unfoldable pub allow : Visit → Key → RateLimiter → RateLimiter × Bool
  unfolding resolve_key try_consume handle_error
  allow v key rl =
      let (rl', allowed, err) = try_consume v (resolve_key rl.rates.config v.ctx key) 1 rl in
      if rl.closed
      then (rl, false)
      else elim err [ some e ↦ (rl', handle_error rl') | none ↦ (rl', allowed) ]

  unfoldable pub take : Visit → Key → ℤ → RateLimiter → RateLimiter × Bool
  unfolding resolve_key try_consume handle_error
  take v key tokens rl =
      let c = rl.rates.config in
      let (rl', taken, err) = try_consume v (resolve_key c v.ctx key) (pos_part tokens) rl in
      if rl.closed
      then (rl, false)
      else if not (is_pos tokens)
      then (rl, false)
      else if ltb_ℤ c.max_tokens_per_request tokens
      then (rl, false)
      else elim err [
        | some e ↦
            if handle_error rl' && ltb_ℤ c.burst tokens
            then (rl', false)
            else (rl', handle_error rl')
        | none ↦ (rl', taken)
      ]

  -- calculateWaitTime: an error of Get counts as a missing bucket.
  unfoldable pub calculate_wait_time : Visit → Key → RateLimiter → ℕ
  calculate_wait_time v key rl =
      let (state, err) = S.get v key rl.store in
      elim err [ some e ↦ 0 | none ↦ wait_time rl.rates v.now state ]

  unfoldable pub limit_error : Visit → Key → RateLimiter → LimitError
  unfolding calculate_wait_time
  limit_error v resolved_key rl =
      rate_limit_error (sanitize_log_key resolved_key) (calculate_wait_time v resolved_key rl)

  -- What Execute and ExecuteN return, and whether they ran the operation. `waits` is the visit of
  -- calculateWaitTime.
  pub record Executed : Type 0 where
    pub limiter : RateLimiter
    pub err : Option LimitError
    pub ran : Bool

  abbrev refused : RateLimiter → LimitError → Executed
  refused rl e = record { limiter = rl; err = some e; ran = false }

  abbrev ran_with : RateLimiter → Option Error → Executed
  ran_with rl none = record { limiter = rl; err = none; ran = true }
  ran_with rl (some e) = record { limiter = rl; err = some (operation_error e); ran = true }

  unfoldable pub execute : Visit → Visit → Key → Option Error → RateLimiter → Executed
  unfolding allow limit_error
  execute v waits key operation rl =
      let (rl', allowed) = allow v key rl in
      let resolved = resolve_key rl.rates.config v.ctx key in
      if rl.closed
      then refused rl err_rate_limiter_closed
      else if not allowed
      then refused rl' (limit_error waits resolved rl')
      else ran_with rl' operation

  unfoldable pub execute_n : Visit → Visit → Key → ℤ → Option Error → RateLimiter → Executed
  unfolding take limit_error
  execute_n v waits key tokens operation rl =
      let (rl', taken) = take v key tokens rl in
      let resolved = resolve_key rl.rates.config v.ctx key in
      if rl.closed
      then refused rl err_rate_limiter_closed
      else if not (is_pos tokens)
      then refused rl err_invalid_token_count
      else if ltb_ℤ rl.rates.config.max_tokens_per_request tokens
      then refused rl err_excessive_tokens
      else if not taken
      then refused rl' (limit_error waits resolved rl')
      else ran_with rl' operation

  -- Close; `close_store` is the store's.
  unfoldable pub close : (S.State → S.State) → RateLimiter → RateLimiter
  close close_store rl =
      if rl.closed then rl else record rl { closed = true; store = close_store rl.store }

  -- Reset, HealthCheck and BucketCount; the argument is the store's method, none if it has not got
  -- it.
  unfoldable pub reset :
      Option (Context → S.State → S.State × Option LimitError)
      → Context
      → RateLimiter
      → RateLimiter × Option LimitError
  reset resetter ctx rl = if rl.closed then (rl, some err_rate_limiter_closed) else elim ctx.err [
    | some e ↦ (rl, some (context_error e))
    | none ↦ elim resetter [
      | none ↦ (rl, none)
      | some method ↦ let (store', err) = method ctx rl.store in (record rl { store = store' }, err)
    ]
  ]

  unfoldable pub health_check :
      Option (Context → S.State → Option LimitError) → Context → RateLimiter → Option LimitError
  health_check checker ctx rl =
      if rl.closed
      then some err_rate_limiter_closed
      else elim checker [ none ↦ none | some method ↦ method ctx rl.store ]

  unfoldable pub bucket_count : Option (S.State → ℕ) → RateLimiter → ℤ
  bucket_count counter rl =
      if rl.closed
      then negsuc 0
      else elim counter [ none ↦ negsuc 0 | some method ↦ pos (method rl.store) ]
