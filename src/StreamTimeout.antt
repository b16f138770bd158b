-- ===== src/StreamTimeout.antt =====
-- streamtimeout/streamtimeout.go: Execute as the steps of fn, of its calls of mark, of the watchdog
-- goroutines and of the clock.
pub mod Laws
use fortify.Base.{
  ℕ, ◌+◌, ◌-◌, Bool, true, false, not, ◌&&◌, ◌||◌, if◌then◌else◌, leb, Option, none, some, List, [],
  ◌∷◌, ℤ, is_pos, pos_part,
}
use fortify.Ferrors.{Error, Sentinel, err_timeout, deadline_exceeded}

pub data Stage : Type 0 where
  stage_first_byte stage_idle stage_total : Stage

-- The Logger is left out.
pub record Config : Type 0 where
  pub first_byte_timeout : ℤ
  pub idle_timeout : ℤ
  pub total_timeout : ℤ

-- New, and none for its error.
unfoldable pub new : Config → Option Config
new cfg =
    if not (is_pos cfg.first_byte_timeout)
      && not (is_pos cfg.idle_timeout)
      && not (is_pos cfg.total_timeout)
    then none
    else some cfg

-- The errors of Execute: the context's, the operation's, and *StreamTimeoutError with its stage and
-- Elapsed.
pub data StreamError : Type 0 where
  parent_error : Error → StreamError
  operation_error : Error → StreamError
  stream_timeout_error : Stage → ℕ → StreamError

unfoldable pub unwrap_stream_timeout : Stage → ℕ → List Sentinel
unwrap_stream_timeout stage elapsed = err_timeout ∷ deadline_exceeded ∷ []

-- `stage` and `firedAt`; `since` keeps the instant from which the watchdog has counted.
pub record Fired : Type 0 where
  pub stage : Stage
  pub at : ℕ
  pub since : ℕ

module _ (T : Type 0) where
  -- The variables of Execute, the clock, and which watchdog goroutines run. `cancelled` says whether
  -- cctx is done, `idle_due` when the idle timer fires, `marked` keeps the last call of mark (startAt
  -- before the first one).
  pub record Watch : Type 0 where
    pub now : ℕ
    pub start_at : ℕ
    pub fired : Option Fired
    pub cancelled : Bool
    pub parent_err : Option Error
    pub seen_mark : Bool
    pub marked : ℕ
    pub idle_due : Option ℕ
    pub first_byte_runs : Bool
    pub idle_runs : Bool
    pub total_runs : Bool
    pub outcome : Option (T × Option StreamError)

  -- Time passes; the parent context ends; fn calls mark; a watchdog takes the case of its timer, or
  -- another one and ends; fn returns.
  pub data Event : Type 0 where
    passes : ℕ → Event
    parent_ends : Error → Event
    marks : Event
    fires quits : Stage → Event
    fn_returns : T × Option Error → Event

abbrev or_else : Option Error → Error → Option Error
or_else none e = some e
or_else (some d) e = some d

abbrev due : Option ℕ → ℕ → Bool
due none now = false
due (some d) now = leb d now

module _ {T : Type 0} (zero_value : T) (cfg : Config) where
  -- Execute up to the call of fn.
  unfoldable pub start : ℕ → Option Error → Watch T
  start now parent_err = record {
    now = now;
    start_at = now;
    fired = none;
    cancelled = elim parent_err [ none ↦ false | some e ↦ true ];
    parent_err = parent_err;
    seen_mark = false;
    marked = now;
    idle_due = none;
    first_byte_runs = is_pos cfg.first_byte_timeout;
    idle_runs = false;
    total_runs = is_pos cfg.total_timeout;
    outcome = none;
  }

  -- fire
  unfoldable pub fire : Stage → ℕ → Watch T → Watch T
  fire stage since w = elim w.fired [
    | some f ↦ w
    | none ↦ record w {
      fired = some (record { stage = stage; at = w.now; since = since });
      cancelled = true;
    }
  ]

  -- mark: the first call starts the idle watchdog, a later one resets its timer.
  unfoldable pub mark : Watch T → Watch T
  mark w =
      let reset = some (w.now + pos_part cfg.idle_timeout) in
      if not w.seen_mark
      then if is_pos cfg.idle_timeout
        then record w { seen_mark = true; marked = w.now; idle_due = reset; idle_runs = true }
        else record w { seen_mark = true; marked = w.now }
      else elim w.idle_due [
        | none ↦ record w { marked = w.now }
        | some d ↦ record w { marked = w.now; idle_due = reset }
      ]

  unfoldable pub fires_timer : Stage → Watch T → Option (Watch T)
  unfolding fire
  fires_timer stage_first_byte w =
      if w.first_byte_runs && leb (w.start_at + pos_part cfg.first_byte_timeout) w.now
      then some (fire stage_first_byte w.start_at (record w { first_byte_runs = false }))
      else none
  fires_timer stage_idle w =
      if w.idle_runs && due w.idle_due w.now
      then some (fire stage_idle w.marked (record w { idle_runs = false }))
      else none
  fires_timer stage_total w =
      if w.total_runs && leb (w.start_at + pos_part cfg.total_timeout) w.now
      then some (fire stage_total w.start_at (record w { total_runs = false }))
      else none

  -- The cases firstMark, cctx.Done and stop.
  unfoldable pub quit : Stage → Watch T → Option (Watch T)
  quit stage_first_byte w =
      if w.first_byte_runs && (w.seen_mark || w.cancelled)
      then some (record w { first_byte_runs = false })
      else none
  quit stage_idle w =
      if w.idle_runs && (w.cancelled || (elim w.outcome [ none ↦ false | some o ↦ true ]))
      then some (record w { idle_runs = false })
      else none
  quit stage_total w =
      if w.total_runs && w.cancelled then some (record w { total_runs = false }) else none

  abbrev operation : Option Error → Option StreamError
  operation none = none
  operation (some e) = some (operation_error e)

  -- Execute after fn, and the deferred cancel.
  unfoldable pub finish : T × Option Error → Watch T → Watch T
  finish r w =
      let elapsed = w.now - w.start_at in
      let result : T × Option StreamError = elim w.fired [
        | none ↦ (r.0, operation r.1)
        | some f ↦ elim w.parent_err [
          | some e ↦ (zero_value, some (parent_error e))
          | none ↦ (zero_value, some (stream_timeout_error f.stage elapsed))
        ]
      ] in
      record w { outcome = some result; cancelled = true }

  -- none: the event cannot happen in this state.
  unfoldable pub step : Event T → Watch T → Option (Watch T)
  unfolding mark fires_timer quit finish
  step (passes d) w = some (record w { now = w.now + d })
  step (parent_ends e) w = some (record w { parent_err = or_else w.parent_err e; cancelled = true })
  step marks w = elim w.outcome [ none ↦ some (mark w) | some o ↦ none ]
  step (fires stage) w = fires_timer stage w
  step (quits stage) w = quit stage w
  step (fn_returns r) w = elim w.outcome [ none ↦ some (finish r w) | some o ↦ none ]

  unfoldable pub run : List (Event T) → Watch T → Option (Watch T)
  unfolding step
  run [] w = some w
  run (e ∷ es) w = elim (step e w) [ none ↦ none | some w' ↦ run es w' ]
