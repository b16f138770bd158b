-- ===== src/Examples/RetryCases.antt =====
-- Retries at work (retry/).
use native.Mathlib.Nat.{div-le_of_le-mul}
use fortify.Base.{
  ℕ, zero, suc, ◌≤◌, ◌<◌, ◌≡◌, refl, true, false, ◌⊎◌, none, some, [], ◌∷◌, All, arith, pos,
}
use fortify.Ferrors
use fortify.Ferrors.{Error, sentinel, app, is, err_circuit_open, deadline_exceeded}
use fortify.Retry.Config.{Config, backoff_exponential, set_defaults}
use fortify.Retry.Backoff.{max_backoff_duration, calculate_backoff}
use fortify.Retry.Loop.{Attempt, is_retryable, execute}
use fortify.Retry.Attempts.{settles, limit, execute_settled}
use fortify.Retry.Delays.{Fits, TruncBelow, execute_delays}
use fortify.Examples.Ratio.{ratio}

abbrev config : Config
config = record {
  retryable_errors = [];
  non_retryable_errors = [];
  is_retryable = none;
  initial_delay = pos 100;
  max_delay = pos 250;
  multiplier = (2, 1);
  max_attempts = pos 3;
  backoff_policy = backoff_exponential;
  jitter = false;
}

-- The first call fails, the second succeeds with 7.
abbrev world : ℕ → Attempt ℕ
world zero = record { ctx_err = none; result = (0, none); interrupted = none; random = (0, 1) }
world (suc zero) = record {
  ctx_err = none;
  result = (0, some (sentinel (app 1)));
  interrupted = none;
  random = (0, 1);
}
world (suc (suc n)) = record {
  ctx_err = none;
  result = (7, none);
  interrupted = none;
  random = (0, 1);
}

abbrev live : (i : ℕ) → (world i).ctx_err ≡ none
live zero = refl
live (suc zero) = refl
live (suc (suc n)) = refl

abbrev waits : (i : ℕ) → (world i).interrupted ≡ none
waits zero = refl
waits (suc zero) = refl
waits (suc (suc n)) = refl

execute_twice : (execute config 0 world).calls ≡ 2
unfolding execute set_defaults is_retryable Ferrors.is_retryable is calculate_backoff
execute_twice = refl

execute_waits : (execute config 0 world).delays ≡ 100 ∷ []
unfolding execute set_defaults is_retryable Ferrors.is_retryable is calculate_backoff
execute_waits = refl

execute_no_error : (execute config 0 world).err ≡ none
unfolding execute set_defaults is_retryable Ferrors.is_retryable is calculate_backoff
execute_no_error = refl

execute_settled_example :
    let out = execute config 0 world in
    (0 < out.calls)
    × (out.calls ≤ limit config)
    × ((out.value, out.err) ≡ (world out.calls).result)
    × ((out.calls ≡ limit config) ⊎ (settles (set_defaults config) (world out.calls).result ≡ true))
execute_settled_example = execute_settled config 0 world live waits

-- Every call is refused by an open circuit.
abbrev refusing : ℕ → Attempt ℕ
refusing n = record {
  ctx_err = none;
  result = (0, some (sentinel err_circuit_open));
  interrupted = none;
  random = (0, 1);
}

ratio-TruncBelow : TruncBelow ratio
ratio-TruncBelow (a, zero) n above below = ground arith
ratio-TruncBelow (a, suc b) n above below =
    div-le_of_le-mul (suc b) {m = a} {n = max_backoff_duration} (ground arith)

execute_delays_example : All (Fits (set_defaults config)) (execute config 0 world).delays
execute_delays_example = execute_delays ratio-TruncBelow (omega arith) config 0 world refl
