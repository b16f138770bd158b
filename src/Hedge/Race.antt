-- ===== src/Hedge/Race.antt =====
-- How a race of hedge/hedge.go ends, and after how many steps.
use fortify.Base.{
  IfSome, ℕ, ◌+◌, ◌-◌, ◌*◌, ◌≤◌, ◌≡◌, ◌≢◌, subst, ◌⊎◌, inl, inr, Option, none, some, List, [], ◌∷◌,
  length, pos_part, arith, Option-cases, length-append, if◌then◌else◌,
}
use fortify.Ferrors.{Error}
use fortify.Hedge.Defs.{
  Config, set_defaults, Result, Race, Event, fn_returns, ctx_ends, receives, timer_fires, ctx_done,
  drops, start, fire_ends, fire_drops, collect, on_timer, step, run,
}
use fortify.Hedge.Laws.{cap, Racing, Explained, Phase, Inv, run-Inv, start-Inv}

-- The steps of Execute and its goroutines, but not the end of the context.
abbrev pub work : {T : Type 0} → Event T → ℕ
work (ctx_ends e) = 0
work _ = 1

abbrev pub works : {T : Type 0} → List (Event T) → ℕ
works [] = 0
works (e ∷ es) = work e + works es

module _ {T : Type 0} (zero_value : T) (c : Config) where
  abbrev to_do : Race T → ℕ
  to_do race =
      3 * (cap zero_value c - race.fired)
      + 2 * race.running
      + length race.results
      + (if race.armed then 1 else 0)

  abbrev Spent : Event T → Race T → Race T → Type 0
  Spent e race out = (out.outcome ≢ none) ⊎ (work e + to_do out ≤ to_do race)

  step-Spent :
      (e : Event T) (race : Race T)
      → race.outcome ≡ none
      → IfSome (Spent e race) (step zero_value c e race)
  unfolding step collect on_timer fire_ends fire_drops
  step-Spent (fn_returns r) race h = ground (arith, h, length-append race.results (r ∷ []))
  step-Spent drops race h = ground (arith, h)
  step-Spent (ctx_ends e) race h = inr (omega arith)
  step-Spent receives race h = ground (arith, h)
  step-Spent timer_fires race h = ground (arith, h)
  step-Spent ctx_done race h = ground (arith, h)

  -- A race that has not ended goes on.
  some_step :
      (r : Result T) (race : Race T)
      → race.outcome ≡ none
      → Racing zero_value c race
      → (step zero_value c (fn_returns r) race ≢ none)
        ⊎ (step zero_value c receives race ≢ none)
        ⊎ (step zero_value c timer_fires race ≢ none)
        ⊎ (step zero_value c ctx_done race ≢ none)
  unfolding step fire_ends collect on_timer
  some_step r race h w =
      ground (arith, h, w.started, w.bounded, w.counted, w.exact, w.timer, w.unfinished)

  step_over :
      (e : Event T) (race : Race T)
      → race.outcome ≢ none
      → IfSome (λ (out : Race T). out.outcome ≢ none) (step zero_value c e race)
  unfolding step fire_ends fire_drops
  step_over (fn_returns r) race h = ground (arith, h)
  step_over drops race h = ground (arith, h)
  step_over (ctx_ends e) race h = h
  step_over receives race h = ground (arith, h)
  step_over timer_fires race h = ground (arith, h)
  step_over ctx_done race h = ground (arith, h)

  run_over :
      (es : List (Event T)) (race out : Race T)
      → run zero_value c es race ≡ some out
      → race.outcome ≢ none
      → out.outcome ≢ none
  unfolding run
  run_over [] race out h n =
      let same : race ≡ out = ground (arith, h) in subst (λ (x : Race T). x.outcome ≢ none) same n
  run_over (e ∷ es) race out h n = elim (Option-cases (step zero_value c e race)) [
    | inl stuck ↦ ground (arith, stuck, h)
    | inr (mid, went) ↦
        run_over es mid out (ground (arith, went, h))
          (subst (IfSome (λ (x : Race T). x.outcome ≢ none)) went (step_over e race n))
  ]

  run-works :
      (es : List (Event T)) (race out : Race T)
      → run zero_value c es race ≡ some out
      → out.outcome ≡ none
      → works es + to_do out ≤ to_do race
  unfolding run
  run-works [] race out h n =
      let same : race ≡ out = ground (arith, h) in
      subst (λ (x : Race T). 0 + to_do x ≤ to_do race) same (omega arith)
  run-works (e ∷ es) race out h n = elim (Option-cases (step zero_value c e race)) [
    | inl stuck ↦ ground (arith, stuck, h)
    | inr (mid, went) ↦
        let onwards : run zero_value c es mid ≡ some out = ground (arith, went, h) in
        elim (Option-cases race.outcome) [
          | inl going ↦ elim (subst (IfSome (Spent e race)) went (step-Spent e race going)) [
            | inl over ↦ elim (run_over es mid out onwards over n) [ ]
            | inr spent ↦ omega (arith, spent, run-works es mid out onwards n)
          ]
          | inr (r, over) ↦ elim (run_over (e ∷ es) race out h (λ z. ground (arith, z, over)) n) [ ]
        ]
  ]

  to_do-start :
      (err : Option Error)
      → 1 ≤ cap zero_value c
      → to_do (start zero_value c err) ≤ 3 * cap zero_value c
  unfolding start
  to_do-start none h = omega (arith, h)
  to_do-start (some e) h = omega arith

abbrev pub attempt_limit : Config → ℕ
attempt_limit config = pos_part (set_defaults config).max_attempts

module _ {T : Type 0} (zero_value : T) (config : Config) (err : Option Error) where
  abbrev pub Reached : List (Event T) → Race T → Type 0
  Reached es race =
      run zero_value (set_defaults config) es (start zero_value (set_defaults config) err)
      ≡ some race

  cap_bounds : (1 ≤ attempt_limit config) × (attempt_limit config ≤ 16)
  unfolding set_defaults
  cap_bounds = ground arith

  Reached-Inv :
      (es : List (Event T)) (race : Race T)
      → Reached es race
      → Inv zero_value (set_defaults config) race
  Reached-Inv es race h =
      let c = set_defaults config in
      run-Inv zero_value c es (start zero_value c err) race h
        (start-Inv zero_value c err cap_bounds.0)

  -- When Execute has returned, it has fired MaxAttempts attempts at most, which is 16 at most, and has
  -- returned the first success that it received, after failures only, or the zero value with the
  -- error of the context, or, once as many failures as MaxAttempts have come in and no success, the
  -- zero value with the error of the first of them.
  pub race-Explained :
      (es : List (Event T)) (race : Race T) (r : Result T)
      → Reached es race
      → race.outcome ≡ some r
      → (race.fired ≤ attempt_limit config)
        × (attempt_limit config ≤ 16)
        × Explained zero_value (set_defaults config) race r
  race-Explained es race r h o =
      let (b, w) =
        subst (λ x. Phase zero_value (set_defaults config) x race) o (Reached-Inv es race h) in
      (b, cap_bounds.1, w)

  -- As long as Execute has not returned, it has made three steps at most for each of MaxAttempts,
  -- those of its goroutines counted, and one more is possible: the end of a fn that runs, whose send
  -- does not block, a result to receive, the timer, or the end of the context that the loop sees.
  pub race_ends :
      (es : List (Event T)) (race : Race T) (r : Result T)
      → Reached es race
      → race.outcome ≡ none
      → (works es ≤ 3 * attempt_limit config)
        × ((step zero_value (set_defaults config) (fn_returns r) race ≢ none)
            ⊎ (step zero_value (set_defaults config) receives race ≢ none)
            ⊎ (step zero_value (set_defaults config) timer_fires race ≢ none)
            ⊎ (step zero_value (set_defaults config) ctx_done race ≢ none))
  race_ends es race r h o =
      let c = set_defaults config in
      let spent = run-works zero_value c es (start zero_value c err) race h o in
      let going = subst (λ x. Phase zero_value c x race) o (Reached-Inv es race h) in
      (
        omega (arith, spent, to_do-start zero_value c err cap_bounds.0),
        some_step zero_value c r race o going,
      )
