-- ===== src/CircuitBreaker/CountWindow.antt =====
-- circuitbreaker/window.go: countWindow, a circular buffer of the last `size` outcomes.
pub mod Refines
use fortify.Base.{
  ℕ, ◌+◌, ◌-◌, ◌%◌, List, Bool, true, false, not, ◌&&◌, ltb, ◌==◌, if◌then◌else◌, get_or, set,
  replicate, length,
}

-- `outcomes` holds true for a failure.
pub record CountWindow : Type 0 where
  pub outcomes : List Bool
  pub size : ℕ
  pub next : ℕ
  pub filled : ℕ
  pub failures : ℕ

unfoldable pub new_count_window : ℕ → CountWindow
new_count_window size = record {
  outcomes = replicate size false;
  size = size;
  next = 0;
  filled = 0;
  failures = 0;
}

-- countWindow.record. The index `next` stays in range (Refines), so the read and the write do not
-- panic, and `failures--` runs only when the buffer holds a failure.
unfoldable pub record_call : Bool → CountWindow → CountWindow
record_call success w =
    let evicted =
      if w.filled == w.size && get_or w.outcomes w.next false then w.failures - 1 else w.failures in
    let failure = not success in
    record w {
      outcomes = set w.outcomes w.next failure;
      failures = if failure then evicted + 1 else evicted;
      next = (w.next + 1) % w.size;
      filled = if ltb w.filled w.size then w.filled + 1 else w.filled;
    }

unfoldable pub stats : CountWindow → ℕ × ℕ
stats w = (w.filled, w.failures)

-- countWindow.reset. `clear` sets every element to the zero value.
unfoldable pub reset : CountWindow → CountWindow
reset w = record w {
  outcomes = replicate (length w.outcomes) false;
  next = 0;
  filled = 0;
  failures = 0;
}
