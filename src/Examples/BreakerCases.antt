-- ===== src/Examples/BreakerCases.antt =====
-- Circuit breakers at work (circuitbreaker/).
use fortify.Base.{
  ℕ, ◌≡◌, refl, true, false, none, some, List, [], ◌∷◌, ◌+◌, arith, pos, add_duration,
}
use fortify.Ferrors.{Error, is, err_circuit_open}
use fortify.CircuitBreaker.Counts.{state_closed, state_open, state_half_open}
use fortify.CircuitBreaker.Predicates.{trip_on_consecutive_failures, clamp_to_uint32}
use fortify.CircuitBreaker.Config.{Config, sliding_window_disabled, set_defaults}
use fortify.CircuitBreaker.Breaker.{
  CircuitBreaker, Moment, new, before_request, after_request, read_state,
}
use fortify.CircuitBreaker.Execute.{
  Op, before_op, after_op, read_op, step, run, fast_admit, Call, Others, execute,
}
use fortify.CircuitBreaker.Invariant.{Inv, new-Inv, run-Inv, run-new-Inv}
use fortify.CircuitBreaker.Transitions.{open_until_expiry}
use fortify.CircuitBreaker.Admission.{half_open_admits, fast_admit-before_request, execute_open}
use fortify.CircuitBreaker.Trips.{Counting, reports, trips_at_threshold}
use fortify.Examples.Ratio.{ratio}

-- Two failures in a row trip it for 100 ns; two trials close it.
abbrev pub config : Config
config = record {
  ready_to_trip = some (trip_on_consecutive_failures (pos 2));
  on_state_change = true;
  is_successful = none;
  interval = pos 0;
  timeout = pos 100;
  max_requests = 2;
  sliding_window_type = sliding_window_disabled;
  sliding_window_size = pos 0;
  minimum_calls = pos 0;
  failure_rate_threshold = (1, 2);
}

abbrev pub at : ℕ → Moment
at now = record { now = now; pick = true }

abbrev fresh : CircuitBreaker
fresh = new config 1000

abbrev trip : List Op
trip = after_op 0 false (at 1001) ∷ after_op 0 false (at 1002) ∷ []

abbrev tripped : CircuitBreaker
tripped = run trip fresh

abbrev trying : CircuitBreaker
trying = run (before_op (at 1200) ∷ []) tripped

tripped_state : tripped.state ≡ state_open
unfolding run new set_defaults step after_request trip_on_consecutive_failures
tripped_state = refl

tripped_expiry : tripped.expiry ≡ 1102
unfolding run new set_defaults step after_request trip_on_consecutive_failures
tripped_expiry = refl

trying_state : trying.state ≡ state_half_open
unfolding run new set_defaults step after_request before_request trip_on_consecutive_failures
trying_state = refl

-- A call of State in between finds the breaker closed.
abbrev watched : List Op
watched = after_op 0 false (at 1001) ∷ read_op (at 1002) ∷ after_op 0 false (at 1003) ∷ []

run-new-Inv_example : Inv (run watched fresh)
unfolding run new set_defaults step after_request read_state trip_on_consecutive_failures
run-new-Inv_example = run-new-Inv config 1000 watched (omega arith) (refl, tt)

fresh-Inv : Inv fresh
unfolding run new
fresh-Inv = new-Inv config 1000 (omega arith)

tripped-Inv : Inv tripped
tripped-Inv = run-Inv trip fresh fresh-Inv

trying-Inv : Inv trying
trying-Inv = run-Inv (before_op (at 1200) ∷ []) tripped tripped-Inv

open_until_expiry_example :
    ((run (before_op (at 1050) ∷ after_op 0 true (at 1102) ∷ []) tripped).state ≡ state_open)
    × ((run (before_op (at 1050) ∷ after_op 0 true (at 1102) ∷ []) tripped).expiry ≡ tripped.expiry)
    × ((run (before_op (at 1050) ∷ after_op 0 true (at 1102) ∷ []) tripped).generation
        ≡ tripped.generation)
    × ((run (before_op (at 1050) ∷ after_op 0 true (at 1102) ∷ []) tripped).counts ≡ tripped.counts)
unfolding run new set_defaults step after_request trip_on_consecutive_failures
open_until_expiry_example =
    open_until_expiry (before_op (at 1050) ∷ after_op 0 true (at 1102) ∷ []) tripped tripped_state
      (omega arith)

half_open_admits_example : before_request (at 1300) trying ≡ (trying, trying.generation, none)
half_open_admits_example = half_open_admits (at 1300) trying trying-Inv trying_state

fast_admit-before_request_example : before_request (at 1001) fresh ≡ (fresh, 0, none)
unfolding new set_defaults fast_admit
fast_admit-before_request_example = fast_admit-before_request (at 1001) fresh 0 fresh-Inv refl

abbrev call : Call ℕ
call = record {
  ctx_err = none;
  fast_now = 1050;
  admitted_at = at 1050;
  completed_at = at 1060;
  result = (7, none);
}

abbrev pub nobody : Others
nobody = record { load_1 = []; load_2 = []; load_3 = []; lock = []; running = [] }

execute_open_example :
    ((execute 0 call nobody tripped).ran ≡ false)
    × ((execute 0 call nobody tripped).value ≡ 0)
    × ((e : Error) × ((execute 0 call nobody tripped).err ≡ some e)
        × (is e err_circuit_open ≡ true))
unfolding run new set_defaults step after_request trip_on_consecutive_failures
execute_open_example =
    execute_open 0 call nobody tripped tripped-Inv tripped_state refl (omega arith) tt

execute_healthy : (execute 0 call nobody fresh).value ≡ 7
unfolding execute run new set_defaults after_request fast_admit
execute_healthy = refl

fresh-Counting : Counting (pos 2) fresh
unfolding new set_defaults
fresh-Counting = record { closed = refl; no_window = refl; policy = refl; no_interval = refl }

trips_at_threshold_example :
    let before = run (reports false 0 (at 1001 ∷ [])) fresh in
    let cb' = after_request 0 false (at 1002) before in
    (before.state ≡ state_closed)
    × (cb'.state ≡ state_open)
    × (cb'.expiry ≡ add_duration 1002 fresh.config.timeout)
unfolding new clamp_to_uint32
trips_at_threshold_example =
    trips_at_threshold (pos 2) 0 (at 1001 ∷ []) (at 1002) fresh fresh-Counting refl refl

trying_generation : trying.generation ≡ 2
unfolding run new set_defaults step after_request before_request trip_on_consecutive_failures
trying_generation = refl

trying_trials : trying.counts.consecutive_successes + 2 ≡ trying.config.max_requests
unfolding run new set_defaults step after_request before_request trip_on_consecutive_failures
trying_trials = refl
