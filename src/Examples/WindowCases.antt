-- ===== src/Examples/WindowCases.antt =====
-- Sliding windows of circuitbreaker/window.go.
use fortify.Base.{
  ◌≡◌, refl, Bool, true, false, Option, none, some, List, [], ◌∷◌, min, length, take, arith, pos,
  if◌then◌else◌,
}
use fortify.CircuitBreaker.Config.{Config, sliding_window_count, set_defaults}
use fortify.CircuitBreaker.Counts.{state_closed, state_open}
use fortify.CircuitBreaker.CountWindow
use fortify.CircuitBreaker.CountWindow.{CountWindow, new_count_window}
use fortify.CircuitBreaker.CountWindow.Refines as CountRefines
use fortify.CircuitBreaker.TimeWindow
use fortify.CircuitBreaker.TimeWindow.Events
use fortify.CircuitBreaker.TimeWindow.Refines as TimeRefines
use fortify.CircuitBreaker.Breaker.{new, after_request}
use fortify.CircuitBreaker.WindowTrips.{rate_reached, window_decides}
use fortify.Examples.Ratio.{ratio}
use fortify.Examples.BreakerCases.{config, at}

-- Newest first: a failure, a reset, a success.
abbrev calls : List (Option Bool)
calls = some false ∷ some true ∷ none ∷ some false ∷ []

count_stats_example : CountWindow.stats (CountRefines.replay 3 calls) ≡ (
  min 3 (length (CountRefines.history calls)),
  CountRefines.count_failures (take 3 (CountRefines.history calls)),
)
count_stats_example = CountRefines.stats-replay 3 calls (omega arith)

abbrev timed : List TimeRefines.Call
timed =
    record { instant = 3000000000; outcome = some false }
    ∷ record { instant = 2500000000; outcome = some true }
    ∷ []

time_stats_example : TimeWindow.stats 4000000000 (TimeRefines.replay 2 timed) ≡ (
  Events.recent_calls 2 4 (TimeRefines.history timed),
  Events.recent_failures 2 4 (TimeRefines.history timed),
)
time_stats_example = TimeRefines.stats-replay_timed 2 4000000000 timed (omega arith) (omega arith)

time_stats_value : TimeWindow.stats 4000000000 (TimeRefines.replay 2 timed) ≡ (1, 1)
unfolding TimeWindow.stats TimeWindow.new_time_window TimeWindow.record_call
time_stats_value = refl

abbrev rated : Config
rated = record config {
  ready_to_trip = none;
  sliding_window_type = sliding_window_count;
  sliding_window_size = pos 4;
  minimum_calls = pos 1;
}

window_decides_example :
    (after_request 0 false (at 1001) (new rated 1000)).state
    ≡ (if rate_reached 4 (true ∷ []) (new rated 1000) then state_open else state_closed)
unfolding new set_defaults new_count_window
window_decides_example =
    window_decides false 0 (at 1001) [] (new_count_window 4) (new rated 1000) refl refl refl refl
      (CountRefines.new_count_window-Refines 4 (omega arith))
