-- ===== src/CircuitBreaker/Invariant.antt =====
-- What holds of a breaker between two steps (circuitbreaker/breaker.go).
use fortify.Base.{ℕ, ◌+◌, ◌≤◌, ◌<◌, ◌≡◌, Bool, ◌⊎◌, List, [], ◌∷◌, arith, Float64, u32, max_uint32}
use fortify.CircuitBreaker.Counts.{State, state_open, state_half_open}
use fortify.CircuitBreaker.Config.{Config, set_defaults}
use fortify.CircuitBreaker.SlidingWindow.{SlidingWindow}
use fortify.CircuitBreaker.Breaker.{
  CircuitBreaker, Moment, new, emit_state_change, set_state, current_state, before_request,
  record_in_window, on_success, on_failure, after_request, read_state, reset, close,
}
use fortify.CircuitBreaker.Execute.{
  Op, before_op, after_op, read_op, reset_op, dispatch_op, close_op, step, run, dispatch,
}

module _ ⦃fl : Float64⦄ where
  pub record Inv (cb : CircuitBreaker) : Type 0 where
    pub mirror_state : cb.fast_state ≡ cb.state
    pub mirror_expiry : cb.fast_expiry ≡ cb.expiry
    pub mirror_gen : cb.fast_gen ≡ cb.generation
    pub trials : (0 < cb.config.max_requests) × (cb.config.max_requests ≤ max_uint32)
    pub total : cb.counts.requests ≡ u32 (cb.counts.total_successes + cb.counts.total_failures)
    pub streak : (cb.counts.consecutive_successes ≡ 0) ⊎ (cb.counts.consecutive_failures ≡ 0)
    pub open_idle : cb.state ≡ state_open → cb.counts.requests ≡ 0
    pub half_open_trials :
        cb.state ≡ state_half_open
        → (cb.counts.total_successes ≡ cb.counts.consecutive_successes)
          × (cb.counts.total_failures ≡ 0)
          × (cb.counts.consecutive_successes < cb.config.max_requests)

  emit_state_change-Inv :
      (pick : Bool) (s s' : State) (cb : CircuitBreaker)
      → Inv cb
      → Inv (emit_state_change pick s s' cb)
  unfolding emit_state_change
  emit_state_change-Inv pick s s' cb v = ground arith

  set_state-Inv : (s : State) (t : Moment) (cb : CircuitBreaker) → Inv cb → Inv (set_state s t cb)
  unfolding set_state
  set_state-Inv s t cb v = ground arith

  current_state-Inv : (t : Moment) (cb : CircuitBreaker) → Inv cb → Inv (current_state t cb)
  unfolding current_state
  current_state-Inv t cb v = ground arith

  record_in_window-Inv :
      (success : Bool) (t : Moment) (w : SlidingWindow) (cb : CircuitBreaker)
      → Inv cb
      → Inv (record_in_window success t w cb)
  unfolding record_in_window
  record_in_window-Inv success t w cb v = ground arith

  on_success-Inv : (t : Moment) (cb : CircuitBreaker) → Inv cb → Inv (on_success cb.state t cb)
  unfolding on_success
  on_success-Inv t cb v = ground arith

  on_failure-Inv : (t : Moment) (cb : CircuitBreaker) → Inv cb → Inv (on_failure cb.state t cb)
  unfolding on_failure
  on_failure-Inv t cb v = ground arith

  after_request-Inv :
      (generation : ℕ) (success : Bool) (t : Moment) (cb : CircuitBreaker)
      → Inv cb
      → Inv (after_request generation success t cb)
  unfolding after_request
  after_request-Inv generation success t cb v = ground (
    arith,
    current_state-Inv t cb,
    on_success-Inv t (current_state t cb),
    on_failure-Inv t (current_state t cb),
  )

  before_request-Inv : (t : Moment) (cb : CircuitBreaker) → Inv cb → Inv (before_request t cb).0
  unfolding before_request
  before_request-Inv t cb v = ground (arith, current_state-Inv t cb)

  reset-Inv : (t : Moment) (cb : CircuitBreaker) → Inv cb → Inv (reset t cb)
  unfolding reset
  reset-Inv t cb v = ground arith

  close-Inv : (cb : CircuitBreaker) → Inv cb → Inv (close cb)
  unfolding close
  close-Inv cb v = ground arith

  dispatch-Inv : (pick : Bool) (cb : CircuitBreaker) → Inv cb → Inv (dispatch pick cb).0
  unfolding dispatch
  dispatch-Inv pick cb v = ground arith

  pub step-Inv : (op : Op) (cb : CircuitBreaker) → Inv cb → Inv (step op cb)
  unfolding step read_state
  step-Inv (before_op t) cb v = before_request-Inv t cb v
  step-Inv (after_op generation success t) cb v = after_request-Inv generation success t cb v
  step-Inv (read_op t) cb v = current_state-Inv t cb v
  step-Inv (reset_op t) cb v = reset-Inv t cb v
  step-Inv (dispatch_op pick) cb v = dispatch-Inv pick cb v
  step-Inv close_op cb v = close-Inv cb v

  pub run-Inv : (ops : List Op) (cb : CircuitBreaker) → Inv cb → Inv (run ops cb)
  unfolding run
  run-Inv [] cb v = v
  run-Inv (op ∷ ops) cb v = run-Inv ops (step op cb) (step-Inv op cb v)

  pub new-Inv : (c : Config) (now : ℕ) → c.max_requests ≤ max_uint32 → Inv (new c now)
  unfolding new set_defaults
  new-Inv c now h = ground arith

  -- No call of State finds a period expired: State writes then, under the read lock, and two such calls
  -- may write at once.
  abbrev pub NoWritingRead : List Op → CircuitBreaker → Type 0
  NoWritingRead [] cb = Unit
  NoWritingRead (read_op t ∷ ops) cb = ((read_state t cb).0 ≡ cb) × NoWritingRead ops cb
  NoWritingRead (op ∷ ops) cb = NoWritingRead ops (step op cb)

  -- After any sequence of steps of any goroutines on a new breaker whose MaxRequests is a uint32, in
  -- which every call of State finds no period expired and so writes nothing under its read lock,
  -- the invariant holds: the atomic mirrors agree with the fields under the lock, Requests is the
  -- sum of the two totals modulo 2^32, one of the two streaks is 0, an open breaker has counted
  -- nothing, and a half-open one has counted no failure and fewer than MaxRequests successes.
  pub run-new-Inv :
      (c : Config) (now : ℕ) (ops : List Op)
      → c.max_requests ≤ max_uint32
      → NoWritingRead ops (new c now)
      → Inv (run ops (new c now))
  run-new-Inv c now ops h quiet = run-Inv ops (new c now) (new-Inv c now h)
