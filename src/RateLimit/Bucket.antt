-- ===== src/RateLimit/Bucket.antt =====
-- The token bucket: refill, calculateWaitTime and the update of tryConsume of ratelimit/limiter.go.
use fortify.Base.{
  ℕ, ◌-◌, Bool, true, false, ◌&&◌, ◌||◌, not, if◌then◌else◌, ltb, leb, Option, none, some, Float64,
  ℤ, pos_part, is_pos,
}
use fortify.RateLimit.Config.{Config, set_defaults}

-- 1 h and 24 h.
abbrev pub max_elapsed : ℕ
max_elapsed = 3600000000000

abbrev pub max_wait_time_limit : ℕ
max_wait_time_limit = 86400000000000

module _ ⦃fl : Float64⦄ where
  pub record BucketState : Type 0 where
    pub last_refill : ℕ
    pub tokens : fl.F

  -- The normalised configuration and the cached values. The field `closed` is that of the limiter.
  pub record Rates : Type 0 where
    pub config : Config
    pub interval_ns : ℤ
    pub burst_float : fl.F
    pub rate_float : fl.F

  -- New
  unfoldable pub new_rates : Config → Rates
  unfolding set_defaults
  new_rates config =
      let c = set_defaults config in
      record {
        config = c;
        interval_ns = c.interval;
        burst_float = fl.of_nat (pos_part c.burst);
        rate_float = fl.of_nat (pos_part c.rate);
      }

  abbrev pub interval_or_second : Rates → ℕ
  interval_or_second r = if is_pos r.interval_ns then pos_part r.interval_ns else 1000000000

  -- tokensToAdd after its cap and its safety net.
  unfoldable pub tokens_to_add : Rates → ℕ → fl.F
  tokens_to_add r elapsed =
      let raw =
        fl.fmul (fl.fdiv (fl.of_nat elapsed) (fl.of_nat (interval_or_second r))) r.rate_float in
      let capped = if fl.fltb r.burst_float raw then r.burst_float else raw in
      if fl.is_nan capped || fl.is_inf capped then r.burst_float else capped

  abbrev pub cap_elapsed : ℕ → ℕ
  cap_elapsed elapsed = if ltb max_elapsed elapsed then max_elapsed else elapsed

  -- `if x > burst { x = burst }`
  abbrev pub cap_burst : Rates → fl.F → fl.F
  cap_burst r x = if fl.fltb r.burst_float x then r.burst_float else x

  -- floatEpsilon is 0.0001.
  unfoldable pub refill : Rates → ℕ → BucketState → BucketState
  unfolding tokens_to_add
  refill r now state =
      let add = tokens_to_add r (cap_elapsed (now - state.last_refill)) in
      let new_tokens = cap_burst r (fl.fadd state.tokens add) in
      if leb now state.last_refill
      then state
      else if fl.fltb add (fl.literal 1 10000)
      then state
      else if fl.fleb r.burst_float state.tokens && fl.fleb r.burst_float new_tokens
      then record { tokens = r.burst_float; last_refill = now }
      else record { tokens = new_tokens; last_refill = now }

  -- A new bucket is full.
  abbrev pub or_full : Rates → ℕ → Option BucketState → BucketState
  or_full r now (some s) = s
  or_full r now none = record { tokens = fl.of_nat (pos_part r.config.burst); last_refill = now }

  -- The function that tryConsume gives to AtomicUpdate: the new state, and `allowed`.
  unfoldable pub consume : Rates → ℕ → ℕ → Option BucketState → BucketState × Bool
  unfolding refill
  consume r tokens_needed now stored =
      let refilled = refill r now (or_full r now stored) in
      let required = fl.of_nat tokens_needed in
      if fl.fleb required refilled.tokens
      then (
        record { tokens = fl.fsub refilled.tokens required; last_refill = refilled.last_refill },
        true,
      )
      else (refilled, false)

  -- calculateWaitTime after Get. For a normalised configuration the quotient is 24 h at most, so the
  -- conversion to a duration does not overflow.
  unfoldable pub wait_time : Rates → ℕ → Option BucketState → ℕ
  unfolding tokens_to_add
  wait_time r now none = 0
  wait_time r now (some state) =
      let add = tokens_to_add r (cap_elapsed (now - state.last_refill)) in
      let current = cap_burst r (fl.fadd state.tokens add) in
      let needed = fl.fsub (fl.literal 1 1) current in
      let per_ns = fl.fdiv r.rate_float (fl.of_nat (interval_or_second r)) in
      let ns_to_wait = fl.fdiv needed per_ns in
      let wait = fl.trunc ns_to_wait in
      if fl.fleb (fl.literal 1 1) current
      then 0
      else if fl.fleb needed (fl.of_nat 0)
      then 0
      else if not (is_pos r.config.rate)
      then max_wait_time_limit
      else if fl.fleb per_ns (fl.of_nat 0)
      then max_wait_time_limit
      else if fl.fltb ns_to_wait (fl.of_nat 0)
      then 0
      else if ltb max_wait_time_limit wait
      then max_wait_time_limit
      else wait
