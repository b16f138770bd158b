-- ===== src/RateLimit/Wait/Laws.antt =====
-- How Wait (ratelimit/limiter.go) ends.
use fortify.Base.{
  ℕ, zero, suc, ◌+◌, ◌≤◌, ◌<◌, ◌≡◌, ◌≢◌, refl, Bool, true, false, ◌⊎◌, inl, inr, Option, none, some,
  List, [], ◌∷◌, All, arith, Float64, ltb, Option-cases, Bool-cases,
}
use fortify.Ferrors.{Error}
use fortify.RateLimit.Errors.{
  Key, Context, LimitError, err_wait_timeout, err_rate_limiter_closed, context_error,
}
use fortify.RateLimit.Store.{Store}
use fortify.RateLimit.Limiter.{
  RateLimiter, resolve_key, try_consume, handle_error, calculate_wait_time,
}
use fortify.RateLimit.Wait.{
  Round, Waited, wait_duration, pause, after_try, wait_loop, unless_closed, wait,
  default_max_wait_duration, default_max_wait_iterations, default_max_total_wait_time,
}

module _ ⦃fl : Float64⦄ (S : Store) where
  abbrev pub Short : ℕ → Type 0
  Short d = (0 < d) × (d ≤ default_max_wait_duration)

  wait_duration-Short : (d : ℕ) → Short (wait_duration S d)
  unfolding wait_duration
  wait_duration-Short d = ground arith

  -- A token was taken in the round i, or the store failed there and the limiter fails open.
  pub record Granted (world : ℕ → Round) (key : Key) (i : ℕ) (out : Waited S) : Type 0 where
    pub before : RateLimiter S
    pub after : out.limiter ≡ (try_consume S (world i).visit key 1 before).0
    pub why :
        ((try_consume S (world i).visit key 1 before).1 ≡ true)
        ⊎ (((try_consume S (world i).visit key 1 before).2 ≢ none)
            × (out.limiter.rates.config.fail_open ≡ true))

  pub record Ended (world : ℕ → Round) (key : Key) (left i : ℕ) (out : Waited S) : Type 0 where
    pub few : out.tries ≤ left
    pub short : All Short out.delays
    pub outcome : (out.err ≢ none) ⊎ ((j : ℕ) × (j + 1 ≡ i + out.tries) × Granted world key j out)

  module _ (world : ℕ → Round) (key : Key) (left i : ℕ) where
    fails-Ended :
        (rl : RateLimiter S) (e : LimitError) (tries : ℕ) (delays : List ℕ)
        → tries ≤ left
        → All Short delays
        → Ended world key left i
            (record { limiter = rl; err = some e; tries = tries; delays = delays })
    fails-Ended rl e tries delays h k = record { few = h; short = k; outcome = inl (ground arith) }

  module _ (world : ℕ → Round) (key : Key) (left i : ℕ) (rl : RateLimiter S) where
    abbrev t : RateLimiter S × Bool × Option LimitError
    t = try_consume S (world i).visit key 1 rl

    takes-Ended :
        (t.1 ≡ true) ⊎ ((t.2 ≢ none) × (t.0.rates.config.fail_open ≡ true))
        → Ended world key
            (suc left)
            i
            (record { limiter = t.0; err = none; tries = 1; delays = [] })
    takes-Ended why = record {
      few = omega arith;
      short = tt;
      outcome = inr (i, omega arith, record { before = rl; after = refl; why = why });
    }

    again-Ended :
        (d : ℕ) (rest : Waited S)
        → Ended world key left (suc i) rest
        → Ended world key
            (suc left)
            i
            (record rest { tries = rest.tries + 1; delays = wait_duration S d ∷ rest.delays })
    again-Ended d rest v = record {
      few = omega (arith, v.few);
      short = (wait_duration-Short d, v.short);
      outcome = again v.outcome;
    }
      where
        again :
            (rest.err ≢ none) ⊎ ((j : ℕ) × (j + 1 ≡ suc i + rest.tries) × Granted world key j rest)
            → (rest.err ≢ none)
              ⊎ ((j : ℕ) × (j + 1 ≡ i + (rest.tries + 1))
                  × Granted world key j (record rest {
                    tries = rest.tries + 1;
                    delays = wait_duration S d ∷ rest.delays;
                  }))
        again (inl e) = inl e
        again (inr (j, h, g)) =
            inr (j, omega (arith, h), record { before = g.before; after = g.after; why = g.why })

    pause-Ended :
        (d : ℕ) (interrupted : Option Error) (rest : Waited S)
        → Ended world key left (suc i) rest
        → Ended world key (suc left) i (pause S t.0 (wait_duration S d) interrupted rest)
    unfolding pause
    pause-Ended d none rest v = again-Ended d rest v
    pause-Ended d (some e) rest v =
        fails-Ended world key (suc left) i t.0 (context_error e) 1 (wait_duration S d ∷ [])
          (omega arith) (wait_duration-Short d, tt)

    fail_open-eq : handle_error S t.0 ≡ true → t.0.rates.config.fail_open ≡ true
    unfolding handle_error
    fail_open-eq h = h

    -- The value `allowed` and the error of tryConsume, as variables to split on.
    after_try-Ended :
        (allowed : Bool) (err : Option LimitError) (d : ℕ) (interrupted : Option Error)
        (rest : Waited S)
        → t.1 ≡ allowed
        → t.2 ≡ err
        → Ended world key left (suc i) rest
        → Ended world key
            (suc left)
            i
            (after_try S t.0 allowed err (wait_duration S d) interrupted rest)
    unfolding after_try
    after_try-Ended true none d interrupted rest a f v = takes-Ended (inl a)
    after_try-Ended false none d interrupted rest a f v = pause-Ended d interrupted rest v
    after_try-Ended true (some e) d interrupted rest a f v =
        elim (Bool-cases (handle_error S t.0)) [
          | inl opens ↦ rw opens (takes-Ended (inl a))
          | inr shut ↦ rw shut (takes-Ended (inl a))
        ]
    after_try-Ended false (some e) d interrupted rest a f v =
        elim (Bool-cases (handle_error S t.0)) [
          | inl opens ↦ rw opens (takes-Ended (inr (λ z. ground (arith, f, z), fail_open-eq opens)))
          | inr shut ↦ rw shut (pause-Ended d interrupted rest v)
        ]

  loop-Ended :
      (world : ℕ → Round) (key : Key) (left i : ℕ) (rl : RateLimiter S)
      → Ended world key left i (wait_loop S world key left i rl)
  unfolding wait_loop
  loop-Ended world key zero i rl =
      fails-Ended world key 0 i rl err_wait_timeout 0 [] (omega arith) tt
  loop-Ended world key (suc left) i rl =
      let t = try_consume S (world i).visit key 1 rl in
      let d = calculate_wait_time S (world i).get_visit key t.0 in
      let rest = wait_loop S world key left (suc i) t.0 in
      let ih = loop-Ended world key left (suc i) t.0 in
      let tried =
        after_try-Ended world key left i rl t.1 t.2 d (world i).interrupted rest refl refl ih in
      let stops =
        λ (e : LimitError). fails-Ended world key (suc left) i rl e 0 [] (omega arith) tt in
      elim (Bool-cases (ltb default_max_total_wait_time (world i).since_start)) [
        | inl late ↦ rw late (stops err_wait_timeout)
        | inr early ↦ elim (Option-cases (world i).ctx_err) [
          | inl live ↦ rw (early, live) tried
          | inr (e, over) ↦ rw (early, over) (stops (context_error e))
        ]
      ]

  unless_closed-Ended :
      (closed : Bool) (world : ℕ → Round) (key : Key) (left : ℕ) (rl : RateLimiter S)
      → Ended world key left 0 (unless_closed S closed world key left rl)
  unfolding unless_closed
  unless_closed-Ended true world key left rl =
      fails-Ended world key left 0 rl err_rate_limiter_closed 0 [] (omega arith) tt
  unless_closed-Ended false world key left rl = loop-Ended world key left 0 rl

  -- Wait ends after 10000 tries at most, with pauses of 100 ms at most and never of 0 in between. It
  -- returns an error, or its last try took a token (the update of the bucket said so), or the store
  -- failed in that try and the limiter fails open.
  pub wait-Ended :
      (world : ℕ → Round) (ctx : Context) (key : Key) (rl : RateLimiter S)
      → Ended world
          (resolve_key S rl.rates.config ctx key)
          default_max_wait_iterations
          0
          (wait S world ctx key rl)
  unfolding wait
  wait-Ended world ctx key rl =
      unless_closed-Ended rl.closed world (resolve_key S rl.rates.config ctx key)
        default_max_wait_iterations rl
