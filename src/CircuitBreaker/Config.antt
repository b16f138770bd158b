-- ===== src/CircuitBreaker/Config.antt =====
-- circuitbreaker/config.go and normalizeSlidingWindow of window.go.
use fortify.Base.{
  ℕ, Bool, true, false, ◌||◌, ◌&&◌, ◌==◌, if◌then◌else◌, Float64, ℤ, pos, is_pos, is_neg, ltb_ℤ,
  Option, none, some,
}
use fortify.Ferrors.{Error}
use fortify.CircuitBreaker.Counts.{Counts}
use fortify.CircuitBreaker.Predicates.{trip_on_consecutive_failures, default_failures_to_trip}

-- `other` stands for the values that are none of the three constants.
pub data SlidingWindowType : Type 0 where
  sliding_window_disabled sliding_window_count sliding_window_time other : SlidingWindowType

abbrev pub default_count_window_size : ℤ
default_count_window_size = pos 100

abbrev pub default_time_window_seconds : ℤ
default_time_window_seconds = pos 60

abbrev pub default_minimum_calls : ℤ
default_minimum_calls = pos 10

abbrev pub max_sliding_window_size : ℤ
max_sliding_window_size = pos 1000000

-- time.Second is 10^9 nanoseconds.
abbrev pub default_timeout : ℤ
default_timeout = pos 60000000000

unfoldable pub default_size : SlidingWindowType → ℤ
default_size sliding_window_count = default_count_window_size
default_size _ = default_time_window_seconds

-- The default of IsSuccessful: err == nil.
unfoldable pub no_error : Option Error → Bool
no_error none = true
no_error (some e) = false

unfoldable pub or_default {ℓ} : {A : Type ℓ} → A → Option A → Option A
or_default d none = some d
or_default d (some a) = some a

module _ ⦃fl : Float64⦄ where
  -- `on_state_change` says whether the callback is set; the Logger is left out.
  pub record Config : Type 0 where
    pub ready_to_trip : Option (Counts → Bool)
    pub on_state_change : Bool
    pub is_successful : Option (Option Error → Bool)
    pub interval : ℤ
    pub timeout : ℤ
    pub max_requests : ℕ
    pub sliding_window_type : SlidingWindowType
    pub sliding_window_size : ℤ
    pub minimum_calls : ℤ
    pub failure_rate_threshold : fl.F

  -- The clamps of normalizeSlidingWindow once the type is count or time.
  unfoldable pub clamp_window : Bool → Config → Config
  unfolding default_size
  clamp_window counting c =
      let size =
        if is_pos c.sliding_window_size
        then c.sliding_window_size
        else default_size c.sliding_window_type in
      let size' = if ltb_ℤ max_sliding_window_size size then max_sliding_window_size else size in
      let calls = if is_pos c.minimum_calls then c.minimum_calls else default_minimum_calls in
      record c {
        sliding_window_size = size';
        minimum_calls = if counting && ltb_ℤ size' calls then size' else calls;
        failure_rate_threshold =
            if fl.fleb c.failure_rate_threshold (fl.literal 0 1)
              || fl.fltb (fl.literal 1 1) c.failure_rate_threshold
            then fl.literal 1 2
            else c.failure_rate_threshold;
      }

  unfoldable pub normalize_sliding_window : Config → Config
  unfolding clamp_window
  normalize_sliding_window c = elim c.sliding_window_type [
    | sliding_window_disabled ↦ c
    | sliding_window_count ↦ clamp_window true c
    | sliding_window_time ↦ clamp_window false c
    | other ↦ record c { sliding_window_type = sliding_window_disabled }
  ]

  -- The fields that setDefaults writes before the sliding window.
  unfoldable pub default_times : Config → Config
  default_times c = record c {
    max_requests = if c.max_requests == 0 then 1 else c.max_requests;
    timeout = if is_pos c.timeout then c.timeout else default_timeout;
    interval = if is_neg c.interval then pos 0 else c.interval;
  }

  unfoldable pub set_defaults : Config → Config
  unfolding default_times normalize_sliding_window or_default no_error
  set_defaults c =
      let n = normalize_sliding_window (default_times c) in
      record n {
        ready_to_trip =
            or_default (trip_on_consecutive_failures default_failures_to_trip) n.ready_to_trip;
        is_successful = or_default no_error n.is_successful;
      }
