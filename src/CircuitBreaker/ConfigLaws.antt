-- ===== src/CircuitBreaker/ConfigLaws.antt =====
-- What setDefaults of circuitbreaker/config.go makes of any configuration.
use fortify.Base.{◌<◌, ◌≡◌, ◌≢◌, true, false, none, arith, Float64, pos, is_pos, leb_ℤ}
use fortify.CircuitBreaker.Config.{
  Config, sliding_window_disabled, sliding_window_count, other, set_defaults,
  max_sliding_window_size,
}

module _ ⦃fl : Float64⦄ where
  -- A configuration that the breaker can run on: no nil function, no trial limit of zero, a
  -- positive timeout, and, if a window is selected, a size that can be allocated and a number of
  -- minimum calls that it can hold.
  pub record IsUsable (c : Config) : Type 0 where
    pub trips : c.ready_to_trip ≢ none
    pub classifies : c.is_successful ≢ none
    pub trials : 0 < c.max_requests
    pub waits : is_pos c.timeout ≡ true
    pub cycles : leb_ℤ (pos 0) c.interval ≡ true
    pub known_type : c.sliding_window_type ≢ other
    pub sized :
        c.sliding_window_type ≢ sliding_window_disabled
        → (is_pos c.sliding_window_size ≡ true)
          × (leb_ℤ c.sliding_window_size max_sliding_window_size ≡ true)
          × (is_pos c.minimum_calls ≡ true)
    pub reachable :
        c.sliding_window_type ≡ sliding_window_count
        → leb_ℤ c.minimum_calls c.sliding_window_size ≡ true

  -- setDefaults makes every configuration usable, whatever integers and nil functions it holds.
  set_defaults-IsUsable : (c : Config) → IsUsable (set_defaults c)
  unfolding set_defaults
  set_defaults-IsUsable c = ground arith

  -- setDefaults leaves a usable configuration alone, if its FailureRateThreshold is neither at most
  -- 0 nor above 1.
  set_defaults_usable :
      (c : Config)
      → IsUsable c
      → fl.fleb c.failure_rate_threshold (fl.literal 0 1) ≡ false
      → fl.fltb (fl.literal 1 1) c.failure_rate_threshold ≡ false
      → set_defaults c ≡ c
  unfolding set_defaults
  set_defaults_usable c u h k = ground arith
