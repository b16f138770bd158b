-- ===== src/StreamTimeout/Laws.antt =====
-- When streamtimeout/streamtimeout.go cuts a stream, and what it returns.
use fortify.Base.{
  ℕ, ◌+◌, ◌≤◌, ◌≡◌, ◌≢◌, subst, true, false, ◌⊎◌, inl, inr, Option, none, some, List, [], ◌∷◌,
  arith, ℤ, is_pos, pos_part, Option-cases, IfSome,
}
use fortify.Ferrors.{Error}
use fortify.StreamTimeout.{
  Stage, stage_first_byte, stage_idle, stage_total, Config, StreamError, parent_error,
  operation_error, stream_timeout_error, Fired, Watch, Event, passes, parent_ends, marks, fires,
  quits, fn_returns, start, fire, mark, fires_timer, quit, finish, step, run,
}

abbrev pub limit : Config → Stage → ℤ
limit cfg stage_first_byte = cfg.first_byte_timeout
limit cfg stage_idle = cfg.idle_timeout
limit cfg stage_total = cfg.total_timeout

module _ {T : Type 0} (zero_value : T) (cfg : Config) where
  -- The watchdog that fired is configured, and has waited its whole limit, from the start or from the
  -- last call of mark before it fired.
  pub record Overdue (w : Watch T) (f : Fired) : Type 0 where
    pub configured : is_pos (limit cfg f.stage) ≡ true
    pub waited : f.since + pos_part (limit cfg f.stage) ≤ f.at
    pub since_start : w.start_at ≤ f.since
    pub past : f.at ≤ w.now

  -- What a result of Execute rests on. A result of fn is passed on as it is.
  abbrev pub Tells : Watch T → T × Option StreamError → Type 0
  Tells w (v, none) = Unit
  Tells w (v, some (operation_error e)) = Unit
  Tells w (v, some (parent_error e)) = (v ≡ zero_value) × (w.fired ≢ none) × (w.parent_err ≡ some e)
  Tells w (v, some (stream_timeout_error stage elapsed)) =
      (v ≡ zero_value)
      × ((f : Fired) × (w.fired ≡ some f) × (f.stage ≡ stage) × (f.at ≤ w.start_at + elapsed))

  record Inv (w : Watch T) : Type 0 where
    clock : w.start_at ≤ w.now
    mark_clock : (w.start_at ≤ w.marked) × (w.marked ≤ w.now)
    first_byte_on : (w.first_byte_runs ≡ false) ⊎ (is_pos cfg.first_byte_timeout ≡ true)
    total_on : (w.total_runs ≡ false) ⊎ (is_pos cfg.total_timeout ≡ true)
    idle_on :
        (w.idle_due ≡ none)
        ⊎ ((is_pos cfg.idle_timeout ≡ true)
            × (w.idle_due ≡ some (w.marked + pos_part cfg.idle_timeout)))
    overdue : IfSome (Overdue w) w.fired
    told : IfSome (Tells w) w.outcome

  mark-Inv : (w : Watch T) → w.outcome ≡ none → Inv w → Inv (mark zero_value cfg w)
  unfolding mark
  mark-Inv w o v =
      ground (arith, o, v.clock, v.mark_clock, v.first_byte_on, v.total_on, v.idle_on, v.overdue)

  finish-Inv :
      (r : T × Option Error) (w : Watch T)
      → w.outcome ≡ none
      → Inv w
      → Inv (finish zero_value cfg r w)
  unfolding finish
  finish-Inv r w o v =
      ground (arith, o, v.clock, v.mark_clock, v.first_byte_on, v.total_on, v.idle_on, v.overdue)

  fires-Inv :
      (stage : Stage) (w : Watch T) → Inv w → IfSome Inv (fires_timer zero_value cfg stage w)
  unfolding fires_timer fire
  fires-Inv stage w v =
      ground
        (arith, v.clock, v.mark_clock, v.first_byte_on, v.total_on, v.idle_on, v.overdue, v.told)

  quit-Inv : (stage : Stage) (w : Watch T) → Inv w → IfSome Inv (quit zero_value cfg stage w)
  unfolding quit
  quit-Inv stage w v =
      ground
        (arith, v.clock, v.mark_clock, v.first_byte_on, v.total_on, v.idle_on, v.overdue, v.told)

  step-Inv : (e : Event T) (w : Watch T) → Inv w → IfSome Inv (step zero_value cfg e w)
  unfolding step
  step-Inv (passes d) w v =
      ground
        (arith, v.clock, v.mark_clock, v.first_byte_on, v.total_on, v.idle_on, v.overdue, v.told)
  step-Inv (parent_ends e) w v =
      ground
        (arith, v.clock, v.mark_clock, v.first_byte_on, v.total_on, v.idle_on, v.overdue, v.told)
  step-Inv marks w v = ground (arith, mark-Inv w)
  step-Inv (fires stage) w v = fires-Inv stage w v
  step-Inv (quits stage) w v = quit-Inv stage w v
  step-Inv (fn_returns r) w v = ground (arith, finish-Inv r w)

  run-Inv :
      (es : List (Event T)) (w out : Watch T) → run zero_value cfg es w ≡ some out → Inv w → Inv out
  unfolding run
  run-Inv [] w out h v = subst Inv (ground (arith, h)) v
  run-Inv (e ∷ es) w out h v = elim (Option-cases (step zero_value cfg e w)) [
    | inl stuck ↦ ground (arith, stuck, h)
    | inr (next, went) ↦
        run-Inv es next out (ground (arith, went, h)) (subst (IfSome Inv) went (step-Inv e w v))
  ]

  start-Inv : (now : ℕ) (parent_err : Option Error) → Inv (start zero_value cfg now parent_err)
  unfolding start
  start-Inv now parent_err = ground arith

  Overdue-stage :
      (w : Watch T) (f : Fired) (stage : Stage)
      → IfSome (Overdue w) w.fired
      → w.fired ≡ some f
      → f.stage ≡ stage
      → (is_pos (limit cfg stage) ≡ true)
        × Overdue w f
        × (pos_part (limit cfg stage) + w.start_at ≤ f.at)
  Overdue-stage w f stage all found same =
      let o : Overdue w f = subst (IfSome (Overdue w)) found all in
      (
        subst (λ s. is_pos (limit cfg s) ≡ true) same o.configured,
        o,
        subst (λ s. pos_part (limit cfg s) + w.start_at ≤ f.at) same
            (omega (arith, o.waited, o.since_start)),
      )

  -- If Execute returns a *StreamTimeoutError, the value is zero, the timeout of its Stage is configured
  -- and is Elapsed at most, and the watchdog that fired first is that of its Stage and had waited the
  -- whole timeout, since the start or since the last call of mark before it fired.
  pub cut_in_time :
      (es : List (Event T)) (now : ℕ) (parent_err : Option Error) (w : Watch T) (value : T)
      (stage : Stage) (elapsed : ℕ)
      → run zero_value cfg es (start zero_value cfg now parent_err) ≡ some w
      → w.outcome ≡ some (value, some (stream_timeout_error stage elapsed))
      → (value ≡ zero_value)
        × (is_pos (limit cfg stage) ≡ true)
        × (pos_part (limit cfg stage) ≤ elapsed)
        × ((f : Fired) × (w.fired ≡ some f) × (f.stage ≡ stage) × Overdue w f)
  cut_in_time es now parent_err w value stage elapsed h o =
      let v = run-Inv es (start zero_value cfg now parent_err) w h (start-Inv now parent_err) in
      let (zero, (f, found, same, by)) = subst (IfSome (Tells w)) o v.told in
      let (configured, overdue, long) = Overdue-stage w f stage v.overdue found same in
      (zero, configured, omega (arith, long, by), (f, found, same, overdue))
