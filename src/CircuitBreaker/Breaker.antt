-- ===== src/CircuitBreaker/Breaker.antt =====
-- circuitbreaker/breaker.go: the state machine. A method that changes *circuitBreaker returns the
-- new record; the mutex makes each method one step. What the runtime decides while the lock is
-- held is an argument: the reading of the clock, and the case that a select takes when two are
-- ready.
use fortify.Base.{
  ℕ, ◌+◌, ◌-◌, Bool, true, false, not, ◌&&◌, ◌||◌, ltb, leb, ◌==◌, if◌then◌else◌, Option, none,
  some, List, [], ◌∷◌, ◌++◌, Float64, pos, ltb_ℤ, is_pos, add_duration, u64, length,
}
use mathlib.Core.Option
use fortify.Ferrors.{Error, circuit_open_error}
use fortify.CircuitBreaker.Counts
use fortify.CircuitBreaker.Counts.{
  Counts, zero_counts, State, state_closed, state_open, state_half_open, state_string,
}
use fortify.CircuitBreaker.Config.{Config, set_defaults, SlidingWindowType, sliding_window_disabled}
use fortify.CircuitBreaker.Predicates.{trip_on_consecutive_failures, default_failures_to_trip}
use fortify.CircuitBreaker.SlidingWindow
use fortify.CircuitBreaker.SlidingWindow.{SlidingWindow, new_sliding_window}

pub record StateChange : Type 0 where
  pub from_state : State
  pub to_state : State

abbrev pub state_change_buffer_size : ℕ
state_change_buffer_size = 64

pub record Moment : Type 0 where
  pub now : ℕ
  pub pick : Bool

unfoldable pub same_state : State → State → Bool
same_state state_closed state_closed = true
same_state state_open state_open = true
same_state state_half_open state_half_open = true
same_state _ _ = false

unfoldable pub is_window_type : SlidingWindowType → Bool
is_window_type sliding_window_disabled = false
is_window_type _ = true

unfoldable pub is_set {ℓ} : {A : Type ℓ} → Option A → Bool
is_set none = false
is_set (some a) = true

module _ ⦃fl : Float64⦄ where
  -- `state_changes` is the buffered channel, none if there is no callback; `done_closed` says that
  -- the channel done is closed.
  pub record CircuitBreaker : Type 0 where
    pub expiry : ℕ
    pub half_open_start : ℕ
    pub config : Config
    pub counts : Counts
    pub generation : ℕ
    pub state : State
    pub window : Option SlidingWindow
    pub fast_state : State
    pub fast_expiry : ℕ
    pub fast_gen : ℕ
    pub state_changes : Option (List StateChange)
    pub done_closed : Bool

  unfoldable pub sync_fast_fields : CircuitBreaker → CircuitBreaker
  sync_fast_fields cb = record cb {
    fast_gen = cb.generation;
    fast_expiry = cb.expiry;
    fast_state = cb.state;
  }

  -- New, at the clock reading `now`.
  unfoldable pub new : Config → ℕ → CircuitBreaker
  unfolding is_set is_window_type new_sliding_window
  new config now =
      let c = set_defaults config in
      let uses_window = not (is_set config.ready_to_trip) && is_window_type c.sliding_window_type in
      let expiry = add_duration now c.interval in
      record {
        expiry = expiry;
        half_open_start = 0;
        config = c;
        counts = zero_counts;
        generation = 0;
        state = state_closed;
        window = if uses_window then new_sliding_window c else none;
        fast_state = state_closed;
        fast_expiry = expiry;
        fast_gen = 0;
        state_changes = if c.on_state_change then some [] else none;
        done_closed = false;
      }

  -- The send fits while fewer than 64 events wait. If done is closed too, the select takes either
  -- case; with the buffer full the event is dropped.
  unfoldable pub emit_state_change : Bool → State → State → CircuitBreaker → CircuitBreaker
  emit_state_change pick from to cb = elim cb.state_changes [
    | none ↦ cb
    | some queue ↦
        if ltb (length queue) state_change_buffer_size && (not cb.done_closed || pick)
        then record cb {
          state_changes = some (queue ++ record { from_state = from; to_state = to } ∷ []);
        }
        else cb
  ]

  -- The writes of setState before it emits. The three cases set expiry, expiry and halfOpenStart.
  unfoldable pub enter_state : State → ℕ → CircuitBreaker → CircuitBreaker
  unfolding sync_fast_fields Counts.reset
  enter_state new_state now cb =
      let moved = record cb {
        state = new_state;
        generation = u64 (cb.generation + 1);
        counts = Counts.reset cb.counts;
        window = Option.map SlidingWindow.reset cb.window;
      } in
      sync_fast_fields (elim new_state [
        | state_closed ↦ record moved { expiry = add_duration now cb.config.interval }
        | state_open ↦ record moved { expiry = add_duration now cb.config.timeout }
        | state_half_open ↦ record moved { half_open_start = now }
      ])

  unfoldable pub set_state : State → Moment → CircuitBreaker → CircuitBreaker
  unfolding same_state enter_state emit_state_change
  set_state new_state t cb =
      if same_state cb.state new_state
      then cb
      else emit_state_change t.pick cb.state new_state (enter_state new_state t.now cb)

  -- currentState: what it writes. Its results are the fields state and generation afterwards.
  unfoldable pub current_state : Moment → CircuitBreaker → CircuitBreaker
  unfolding set_state sync_fast_fields Counts.reset
  current_state t cb = elim cb.state [
    | state_closed ↦
        if is_pos cb.config.interval && ltb cb.expiry t.now
        then sync_fast_fields (record cb {
          counts = Counts.reset cb.counts;
          expiry = add_duration t.now cb.config.interval;
        })
        else cb
    | state_open ↦ if ltb cb.expiry t.now then set_state state_half_open t cb else cb
    | state_half_open ↦ cb
  ]

  -- The name is left empty.
  unfoldable pub open_error : State → ℕ → CircuitBreaker → Error
  unfolding same_state
  open_error state now cb = circuit_open_error (record {
    name = "";
    state = state_string state;
    retry_after = if same_state state state_open && ltb now cb.expiry then cb.expiry - now else 0;
    total_requests = cb.counts.requests;
    total_failures = cb.counts.total_failures;
    consecutive_failures = cb.counts.consecutive_failures;
    consecutive_successes = cb.counts.consecutive_successes;
  })

  -- beforeRequest: the generation of the admitted request, or the error.
  unfoldable pub before_request : Moment → CircuitBreaker → CircuitBreaker × ℕ × Option Error
  unfolding current_state
  before_request t cb =
      let cb' = current_state t cb in
      elim cb'.state [
        | state_open ↦ (cb', cb'.generation, some (open_error state_open t.now cb'))
        | state_half_open ↦
            if leb cb'.config.max_requests cb'.counts.requests
            then (cb', cb'.generation, some (open_error state_half_open t.now cb'))
            else (cb', cb'.generation, none)
        | state_closed ↦ (cb', cb'.generation, none)
      ]

  unfoldable pub window_trips : ℕ → SlidingWindow → CircuitBreaker → Bool
  window_trips now w cb =
      let (calls, failures) = SlidingWindow.stats now w in
      if ltb_ℤ (pos calls) cb.config.minimum_calls
      then false
      else fl.fleb cb.config.failure_rate_threshold (fl.fdiv (fl.of_nat failures) (fl.of_nat calls))

  -- `cb.window.record(success, now)`, and setState(StateOpen) if windowTrips.
  unfoldable pub record_in_window : Bool → Moment → SlidingWindow → CircuitBreaker → CircuitBreaker
  unfolding set_state window_trips
  record_in_window success t w cb =
      let w' = SlidingWindow.record_call success t.now w in
      let cb' = record cb { window = some w' } in
      if window_trips t.now w' cb' then set_state state_open t cb' else cb'

  unfoldable pub on_success : State → Moment → CircuitBreaker → CircuitBreaker
  unfolding record_in_window set_state Counts.on_success
  on_success state t cb =
      let counted = record cb { counts = Counts.on_success cb.counts } in
      elim state [
        | state_closed ↦ elim cb.window [
          | none ↦ counted
          | some w ↦ record_in_window true t w counted
        ]
        | state_half_open ↦
            if leb cb.config.max_requests counted.counts.consecutive_successes
            then set_state state_closed t counted
            else counted
        | state_open ↦ cb
      ]

  -- config.ReadyToTrip(counts): setDefaults has replaced nil.
  unfoldable pub ready_to_trip : Config → Counts → Bool
  ready_to_trip c counts = elim c.ready_to_trip [
    | some f ↦ f counts
    | none ↦ trip_on_consecutive_failures default_failures_to_trip counts
  ]

  unfoldable pub on_failure : State → Moment → CircuitBreaker → CircuitBreaker
  unfolding record_in_window set_state Counts.on_failure ready_to_trip
  on_failure state t cb =
      let counted = record cb { counts = Counts.on_failure cb.counts } in
      elim state [
        | state_closed ↦ elim cb.window [
          | none ↦
              if ready_to_trip cb.config counted.counts
              then set_state state_open t counted
              else counted
          | some w ↦ record_in_window false t w counted
        ]
        | state_half_open ↦ set_state state_open t cb
        | state_open ↦ cb
      ]

  unfoldable pub after_request : ℕ → Bool → Moment → CircuitBreaker → CircuitBreaker
  unfolding current_state on_success on_failure
  after_request generation success t cb =
      let cb' = current_state t cb in
      if generation == cb'.generation
      then if success then on_success cb'.state t cb' else on_failure cb'.state t cb'
      else cb'

  -- The method State, when no other call of State overlaps it. It calls currentState, which writes when a
  -- period has expired, although State holds the read lock only: overlapping calls may then race, which
  -- is not modelled.
  unfoldable pub read_state : Moment → CircuitBreaker → CircuitBreaker × State
  unfolding current_state
  read_state t cb = let cb' = current_state t cb in (cb', cb'.state)

  unfoldable pub reset : Moment → CircuitBreaker → CircuitBreaker
  unfolding sync_fast_fields emit_state_change Counts.reset
  reset t cb =
      let cleared = record cb {
        state = state_closed;
        generation = u64 (cb.generation + 1);
        counts = Counts.reset cb.counts;
        window = Option.map SlidingWindow.reset cb.window;
        expiry = add_duration t.now cb.config.interval;
      } in
      emit_state_change t.pick cb.state state_closed (sync_fast_fields cleared)

  -- closeOnce: done is closed if it was made.
  unfoldable pub close : CircuitBreaker → CircuitBreaker
  close cb = elim cb.state_changes [ none ↦ cb | some queue ↦ record cb { done_closed = true } ]
