-- ===== src/CircuitBreaker/Predicates.antt =====
-- circuitbreaker/predicates.go: the predicates for Config.ReadyToTrip.
use fortify.Base.{
  ℕ, Bool, false, ◌||◌, ltb, leb, ◌==◌, if◌then◌else◌, Float64, ℤ, pos, ltb_ℤ, pos_part, max_uint32,
}
use fortify.CircuitBreaker.Counts.{Counts}

abbrev pub default_failures_to_trip : ℤ
default_failures_to_trip = pos 5

-- The conversion in the last branch is exact: n is in [1, MaxUint32] there.
unfoldable pub clamp_to_uint32 : ℤ → ℕ
clamp_to_uint32 n =
    if ltb_ℤ n (pos 1) then 1 else if ltb_ℤ (pos max_uint32) n then max_uint32 else pos_part n

unfoldable pub trip_on_consecutive_failures : ℤ → Counts → Bool
unfolding clamp_to_uint32
trip_on_consecutive_failures n counts = leb (clamp_to_uint32 n) counts.consecutive_failures

module _ ⦃fl : Float64⦄ where
  -- The switch that clamps r to [0, 1].
  unfoldable pub clamp_ratio : fl.F → fl.F
  clamp_ratio r =
      if fl.is_nan r || fl.fltb r (fl.literal 0 1)
      then fl.literal 0 1
      else if fl.fltb (fl.literal 1 1) r
      then fl.literal 1 1
      else r

  unfoldable pub trip_on_failure_ratio : fl.F → ℤ → Counts → Bool
  unfolding clamp_ratio clamp_to_uint32
  trip_on_failure_ratio r min_requests counts =
      if ltb counts.requests (clamp_to_uint32 min_requests) || counts.requests == 0
      then false
      else fl.fleb (clamp_ratio r)
          (fl.fdiv (fl.of_nat counts.total_failures) (fl.of_nat counts.requests))
