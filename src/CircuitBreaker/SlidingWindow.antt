-- ===== src/CircuitBreaker/SlidingWindow.antt =====
-- circuitbreaker/window.go: the interface slidingWindow and its two implementations.
use fortify.Base.{ℕ, Bool, Option, none, some, Float64, pos_part}
use fortify.CircuitBreaker.Config.{
  Config, sliding_window_disabled, sliding_window_count, sliding_window_time, other,
}
use fortify.CircuitBreaker.CountWindow
use fortify.CircuitBreaker.CountWindow.{CountWindow}
use fortify.CircuitBreaker.TimeWindow
use fortify.CircuitBreaker.TimeWindow.{TimeWindow}

pub data SlidingWindow : Type 0 where
  count_window : CountWindow → SlidingWindow
  time_window : TimeWindow → SlidingWindow

unfoldable pub record_call : Bool → ℕ → SlidingWindow → SlidingWindow
record_call success now (count_window w) = count_window (CountWindow.record_call success w)
record_call success now (time_window w) = time_window (TimeWindow.record_call success now w)

unfoldable pub stats : ℕ → SlidingWindow → ℕ × ℕ
stats now (count_window w) = CountWindow.stats w
stats now (time_window w) = TimeWindow.stats now w

unfoldable pub reset : SlidingWindow → SlidingWindow
reset (count_window w) = count_window (CountWindow.reset w)
reset (time_window w) = time_window (TimeWindow.reset w)

module _ ⦃fl : Float64⦄ where
  -- A normalized configuration has a positive size, so `make` does not panic.
  unfoldable pub new_sliding_window : Config → Option SlidingWindow
  new_sliding_window c = elim c.sliding_window_type [
    | sliding_window_count ↦
        some (count_window (CountWindow.new_count_window (pos_part c.sliding_window_size)))
    | sliding_window_time ↦
        some (time_window (TimeWindow.new_time_window (pos_part c.sliding_window_size)))
    | sliding_window_disabled ↦ none
    | other ↦ none
  ]
