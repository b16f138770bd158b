-- ===== src/Middleware/LlmHedge/Laws.antt =====
-- Which result Run of middleware/presets.go returns, and which attempts it never makes.
use fortify.Base.{
  ◌+◌, ◌≤◌, ◌<◌, ◌≡◌, ◌≢◌, refl, sym, ap, ◌∙◌, subst, true, ◌⊎◌, inl, inr, Option, none, some, List,
  [], ◌∷◌, ◌++◌, length, All, arith, Option-cases, length-append, IfSome,
}
use fortify.Ferrors.{Error}
use fortify.Hedge.Defs.{Result, or_else}
use fortify.Hedge.Laws.{Failed, All-Failed-append}
use fortify.Middleware.LlmHedge.{
  LlmHedgeConfig, llm_hedge, Round, Event, attempt_returns, ctx_ends, receives, timer_fires,
  ctx_done, start, attempt_ends, attempt_drops, drops, collect, on_timer, step, run_all,
}

-- The error of the last failure of a list of results.
abbrev pub last_error : {T : Type 0} → Option Error → List (Result T) → Option Error
last_error e [] = e
last_error e ((v, none) ∷ rest) = last_error e rest
last_error e ((v, some d) ∷ rest) = last_error (some d) rest

last_error-append :
    {T : Type 0}
    → (d : Option Error) (rs : List (Result T)) (v : T) (e : Error)
    → last_error d (rs ++ ((v, some e) ∷ [])) ≡ some e
last_error-append d [] v e = refl
last_error-append d ((w, none) ∷ rs) v e = last_error-append d rs v e
last_error-append d ((w, some x) ∷ rs) v e = last_error-append (some x) rs v e

module _ {T : Type 0} (zero_value : T) (cfg : LlmHedgeConfig) where
  record Going (run : Round T) : Type 0 where
    started : 1 ≤ run.next_hedge
    bounded : run.next_hedge ≤ cfg.attempts
    in_flight : run.running + length run.results ≤ run.pending
    counted : run.next_hedge ≡ run.pending + length run.received
    waiting : 0 < run.pending
    losers : All Failed run.received
    timer : (run.armed ≡ true) ⊎ (run.next_hedge ≡ cfg.attempts)

  -- The ways to end: the first success, after failures only; the end of the context; the failure of
  -- every attempt that has been dispatched so far.
  abbrev pub Explained : Round T → Result T → Type 0
  Explained run r =
      ((r.1 ≡ none)
        × ((earlier : List (Result T)) × (run.received ≡ earlier ++ (r ∷ [])) × All Failed earlier))
      ⊎ ((r ≡ (zero_value, run.ctx_err)) × (run.ctx_err ≢ none))
      ⊎ ((r ≡ (zero_value, last_error none run.received))
          × (length run.received ≡ run.next_hedge)
          × All Failed run.received)

  abbrev Phase : Option (Result T) → Round T → Type 0
  Phase none run = Going run
  Phase (some r) run = (run.next_hedge ≤ cfg.attempts) × Explained run r

  abbrev Inv : Round T → Type 0
  Inv run = Phase run.outcome run

  collect-Phase :
      (v : T) (err : Option Error) (rest : List (Result T)) (run : Round T)
      → run.results ≡ (v, err) ∷ rest
      → Going run
      → Inv (collect zero_value cfg v err rest run)
  unfolding collect
  collect-Phase v none rest run h w = (w.bounded, inl (refl, (run.received, refl, w.losers)))
  collect-Phase v (some e) rest run h w =
      let losers = All-Failed-append run.received (v, some e) w.losers (λ z. ground (arith, z)) in
      ground (
        arith,
        h,
        w.started,
        w.bounded,
        w.in_flight,
        w.counted,
        w.waiting,
        w.timer,
        losers,
        last_error-append none run.received v e,
        length-append run.received ((v, some e) ∷ []),
      )

  attempt_ends-Inv :
      (r : Result T) (run : Round T) → Inv run → IfSome Inv (attempt_ends zero_value cfg r run)
  unfolding attempt_ends
  attempt_ends-Inv r run w = ground (arith, w, length-append run.results (r ∷ []))

  attempt_drops-Inv : (run : Round T) → Inv run → IfSome Inv (attempt_drops zero_value cfg run)
  unfolding attempt_drops
  attempt_drops-Inv run w = ground (arith, w)

  ctx_ends-Phase :
      (o : Option (Result T)) (e : Error) (run : Round T)
      → Phase o run
      → Phase o (record run { ctx_err = or_else run.ctx_err e })
  ctx_ends-Phase none e run w = record {
    started = w.started;
    bounded = w.bounded;
    in_flight = w.in_flight;
    counted = w.counted;
    waiting = w.waiting;
    losers = w.losers;
    timer = w.timer;
  }
  ctx_ends-Phase (some r) e run (b, inl first) = (b, inl first)
  ctx_ends-Phase (some r) e run (b, inr (inl (h, k))) =
      let kept : or_else run.ctx_err e ≡ run.ctx_err = ground (arith, k) in
      (
        b,
        inr (
            inl (h ∙ ap (λ (x : Option Error). (zero_value, x)) (sym kept), λ z. k (sym kept ∙ z))),
      )
  ctx_ends-Phase (some r) e run (b, inr (inr all_failed)) = (b, inr (inr all_failed))

  receive-Phase :
      (results : List (Result T)) (run : Round T)
      → run.results ≡ results
      → Going run
      → IfSome Inv
          (elim results [ [] ↦ none | r ∷ rest ↦ some (collect zero_value cfg r.0 r.1 rest run) ])
  receive-Phase [] run h w = tt
  receive-Phase (r ∷ rest) run h w = collect-Phase r.0 r.1 rest run h w

  receives-Phase :
      (o : Option (Result T)) (run : Round T)
      → Phase o run
      → IfSome Inv (elim o [
        | some _ ↦ none
        | none ↦ elim run.results [
          | [] ↦ none
          | r ∷ rest ↦ some (collect zero_value cfg r.0 r.1 rest run)
        ]
      ])
  receives-Phase none run w = receive-Phase run.results run refl w
  receives-Phase (some r) run w = tt

  timer-Phase :
      (o : Option (Result T)) (run : Round T)
      → run.outcome ≡ o
      → Phase o run
      → IfSome Inv (elim o [ some _ ↦ none | none ↦ on_timer zero_value cfg run ])
  unfolding on_timer
  timer-Phase none run h w =
      ground (arith, h, w.started, w.bounded, w.in_flight, w.counted, w.waiting, w.timer, w.losers)
  timer-Phase (some r) run h w = tt

  ctx_done-Phase :
      (o : Option (Result T)) (run : Round T)
      → Phase o run
      → IfSome Inv (elim o [
        | some _ ↦ none
        | none ↦ elim run.ctx_err [
          | none ↦ none
          | some e ↦ some (record run { outcome = some (zero_value, some e) })
        ]
      ])
  ctx_done-Phase none run w = ground (arith, w.bounded)
  ctx_done-Phase (some r) run w = tt

  step-Inv : (e : Event T) (run : Round T) → Inv run → IfSome Inv (step zero_value cfg e run)
  unfolding step
  step-Inv (attempt_returns r) run w = attempt_ends-Inv r run w
  step-Inv drops run w = attempt_drops-Inv run w
  step-Inv (ctx_ends e) run w = ctx_ends-Phase run.outcome e run w
  step-Inv receives run w = receives-Phase run.outcome run w
  step-Inv timer_fires run w = timer-Phase run.outcome run refl w
  step-Inv ctx_done run w = ctx_done-Phase run.outcome run w

  run-Inv :
      (es : List (Event T)) (run out : Round T)
      → run_all zero_value cfg es run ≡ some out
      → Inv run
      → Inv out
  unfolding run_all
  run-Inv [] run out h w = subst Inv (ground (arith, h)) w
  run-Inv (e ∷ es) run out h w = elim (Option-cases (step zero_value cfg e run)) [
    | inl stuck ↦ ground (arith, stuck, h)
    | inr (next, went) ↦
        run-Inv es next out (ground (arith, went, h)) (subst (IfSome Inv) went (step-Inv e run w))
  ]

module _ {T : Type 0} (zero_value : T) (cfg runner : LlmHedgeConfig) (err : Option Error) where
  abbrev pub Reached : List (Event T) → Round T → Type 0
  Reached es run = run_all zero_value runner es (start zero_value runner err) ≡ some run

  start-Inv : llm_hedge cfg ≡ some runner → Inv zero_value runner (start zero_value runner err)
  unfolding llm_hedge start
  start-Inv h = ground (arith, h)

  -- When Run of a runner that LLMHedge has made returns, it has dispatched all Attempts at most, and it
  -- returns the first success that it received, after failures only, or the zero value with the
  -- error of the context, or, once every attempt dispatched so far has failed, the zero value with the
  -- error of the last failure.
  run-Explained :
      (es : List (Event T)) (run : Round T) (r : Result T)
      → llm_hedge cfg ≡ some runner
      → Reached es run
      → run.outcome ≡ some r
      → (run.next_hedge ≤ runner.attempts) × Explained zero_value runner run r
  run-Explained es run r made h o =
      subst (λ x. Phase zero_value runner x run) o
        (run-Inv zero_value runner es (start zero_value runner err) run h (start-Inv made))

  -- Run of a runner that LLMHedge has made has returned as soon as all attempts that it has dispatched
  -- have come in, however many of Attempts it has not dispatched yet.
  pub gives_up_early :
      (es : List (Event T)) (run : Round T)
      → llm_hedge cfg ≡ some runner
      → Reached es run
      → length run.received ≡ run.next_hedge
      → run.outcome ≢ none
  gives_up_early es run made h all_in going =
      let w =
        subst (λ x. Phase zero_value runner x run) going
          (run-Inv zero_value runner es (start zero_value runner err) run h (start-Inv made)) in
      omega (arith, w.counted, w.waiting, all_in)
