-- ===== src/CircuitBreaker/Admission.antt =====
-- Whom circuitbreaker/breaker.go admits: the open breaker's refusal, the half-open trials, the
-- fast path against the locked one, and what Execute returns.
use fortify.Base.{
  ℕ, ◌≤◌, ◌≡◌, ◌≢◌, ◌++◌, refl, sym, subst, true, false, ◌⊎◌, none, some, List, [], ◌∷◌, arith,
  Float64,
}
use fortify.Ferrors.{Error, is, err_circuit_open}
use fortify.CircuitBreaker.Counts.{state_open, state_half_open}
use fortify.CircuitBreaker.Breaker.{CircuitBreaker, Moment, open_error, before_request}
use fortify.CircuitBreaker.Execute.{Op, run, step, fast_admit, Call, Others, execute}
use fortify.CircuitBreaker.Invariant.{Inv}
use fortify.CircuitBreaker.Transitions.{AllBefore, open_until_expiry}

module _ ⦃fl : Float64⦄ where
  -- A half-open breaker that satisfies the invariant admits every request that comes, unchanged and
  -- in its generation: the limit MaxRequests, which is tested against finished trials, never
  -- refuses one.
  pub half_open_admits :
      (t : Moment) (cb : CircuitBreaker)
      → Inv cb
      → cb.state ≡ state_half_open
      → before_request t cb ≡ (cb, cb.generation, none)
  unfolding before_request
  half_open_admits t cb v s = ground arith

  -- If all four loads of the fast path read the same breaker, an admission by it is the admission
  -- that the locked path makes at that instant: same generation, and nothing changes.
  pub fast_admit-before_request :
      (t : Moment) (cb : CircuitBreaker) (generation : ℕ)
      → Inv cb
      → fast_admit t.now cb cb cb cb ≡ some generation
      → before_request t cb ≡ (cb, generation, none)
  unfolding fast_admit before_request
  fast_admit-before_request t cb generation v h = ground arith

  refused :
      (t : Moment) (cb : CircuitBreaker)
      → cb.state ≡ state_open
      → t.now ≤ cb.expiry
      → before_request t cb ≡ (cb, cb.generation, some (open_error state_open t.now cb))
  unfolding before_request
  refused t cb s h = ground arith

  run-append : (xs ys : List Op) (cb : CircuitBreaker) → run (xs ++ ys) cb ≡ run ys (run xs cb)
  unfolding run
  run-append [] ys cb = refl
  run-append (x ∷ xs) ys cb = run-append xs ys (step x cb)

  -- The steps of others that come before the lock of the slow path.
  abbrev pub before_lock : Others → List Op
  before_lock others = others.load_1 ++ (others.load_2 ++ (others.load_3 ++ others.lock))

  run-before_lock :
      (others : Others) (cb : CircuitBreaker)
      → run others.lock (run others.load_3 (run others.load_2 (run others.load_1 cb)))
        ≡ run (before_lock others) cb
  run-before_lock others cb = simp run-append

  -- Execute on an open breaker, before its expiry and while the steps of others come before it
  -- too, does not run fn, and returns the zero value with an error that errors.Is finds to be
  -- ErrCircuitOpen.
  pub execute_open :
      {T : Type 0} (zero_value : T) (call : Call T) (others : Others) (cb : CircuitBreaker)
      → Inv cb
      → cb.state ≡ state_open
      → call.ctx_err ≡ none
      → call.admitted_at.now ≤ cb.expiry
      → AllBefore cb.expiry (before_lock others)
      → ((execute zero_value call others cb).ran ≡ false)
        × ((execute zero_value call others cb).value ≡ zero_value)
        × ((e : Error) × ((execute zero_value call others cb).err ≡ some e)
            × (is e err_circuit_open ≡ true))
  unfolding execute fast_admit open_error is
  execute_open zero_value call others cb v s c now quiet =
      let (s', e', g, c') = open_until_expiry (before_lock others) cb s quiet in
      let rejected =
        refused call.admitted_at (run (before_lock others) cb) s'
          (subst (λ x. call.admitted_at.now ≤ x) (sym e') now) in
      let steps = run-before_lock others cb in
      (
        ground (arith, v, steps, rejected),
        ground (arith, v, steps, rejected),
        (
          open_error state_open call.admitted_at.now (run (before_lock others) cb),
          ground (arith, v, steps, rejected),
          refl,
        ),
      )

  -- Execute returns what fn returned if it ran fn, and else the zero value with an error.
  pub execute_result :
      {T : Type 0} (zero_value : T) (call : Call T) (others : Others) (cb : CircuitBreaker)
      → let out = execute zero_value call others cb in
        ((out.ran ≡ true) × (out.value ≡ call.result.0) × (out.err ≡ call.result.1))
        ⊎ ((out.ran ≡ false) × (out.value ≡ zero_value) × (out.err ≢ none))
  unfolding execute
  execute_result zero_value call others cb = ground arith
