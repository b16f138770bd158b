-- ===== src/CircuitBreaker/Counts.antt =====
-- circuitbreaker/state.go: the states and the request counters, which are uint32.
use Prim.Native.String.{String}
use fortify.Base.{ℕ, ◌+◌, u32}

pub data State : Type 0 where
  state_closed state_open state_half_open : State

unfoldable pub state_string : State → String
state_string state_closed = "closed"
state_string state_open = "open"
state_string state_half_open = "half-open"

pub record Counts : Type 0 where
  pub requests : ℕ
  pub total_successes : ℕ
  pub total_failures : ℕ
  pub consecutive_successes : ℕ
  pub consecutive_failures : ℕ

unfoldable pub on_success : Counts → Counts
on_success c = record c {
  requests = u32 (c.requests + 1);
  total_successes = u32 (c.total_successes + 1);
  consecutive_successes = u32 (c.consecutive_successes + 1);
  consecutive_failures = 0;
}

unfoldable pub on_failure : Counts → Counts
on_failure c = record c {
  requests = u32 (c.requests + 1);
  total_failures = u32 (c.total_failures + 1);
  consecutive_failures = u32 (c.consecutive_failures + 1);
  consecutive_successes = 0;
}

-- `var counts Counts`
abbrev pub zero_counts : Counts
zero_counts = record {
  requests = 0;
  total_successes = 0;
  total_failures = 0;
  consecutive_successes = 0;
  consecutive_failures = 0;
}

unfoldable pub reset : Counts → Counts
reset c = record c {
  requests = 0;
  total_successes = 0;
  total_failures = 0;
  consecutive_successes = 0;
  consecutive_failures = 0;
}
