-- ===== src/Hedge/Defs.antt =====
-- The configuration of hedge/config.go, and Execute of hedge/hedge.go as the steps of its loop and of
-- the goroutines that it fires.
use fortify.Base.{
  ℕ, ◌+◌, ◌-◌, Bool, true, false, ◌&&◌, if◌then◌else◌, ltb, ◌==◌, Option, none, some, List, [], ◌∷◌,
  ◌++◌, length, ℤ, pos, is_pos, pos_part, ltb_ℤ,
}
use fortify.Ferrors.{Error}

-- The callback OnHedge and the Logger only observe and are left out.
pub record Config : Type 0 where
  pub hedge_delay : ℤ
  pub max_attempts : ℤ

abbrev pub default_max_attempts : ℤ
default_max_attempts = pos 2

abbrev pub max_attempts_cap : ℤ
max_attempts_cap = pos 16

-- 100 ms.
abbrev pub default_hedge_delay : ℤ
default_hedge_delay = pos 100000000

unfoldable pub set_defaults : Config → Config
set_defaults c =
    let attempts = if is_pos c.max_attempts then c.max_attempts else default_max_attempts in
    record {
      hedge_delay = if is_pos c.hedge_delay then c.hedge_delay else default_hedge_delay;
      max_attempts = if ltb_ℤ max_attempts_cap attempts then max_attempts_cap else attempts;
    }

module _ (T : Type 0) where
  abbrev pub Result : Type 0
  Result = T × Option Error

  -- The variables of Execute. `running` counts the goroutines whose fn has not returned, `results` is
  -- the content of the channel, `armed` whether the timer will fire, `ctx_err` the error of the
  -- context, and `outcome` what Execute returned. `received` keeps what the loop has received, in order.
  pub record Race : Type 0 where
    pub fired : ℕ
    pub running : ℕ
    pub results : List Result
    pub collected : ℕ
    pub first_err : Option Error
    pub armed : Bool
    pub ctx_err : Option Error
    pub outcome : Option Result
    pub received : List Result

  -- fn returns in one of the goroutines, which then sends its result or drops it; the context ends; the
  -- cases of the loop's select.
  pub data Event : Type 0 where
    fn_returns : Result → Event
    ctx_ends : Error → Event
    drops receives timer_fires ctx_done : Event

abbrev pub or_else : Option Error → Error → Option Error
or_else none e = some e
or_else (some d) e = some d

module _ {T : Type 0} (zero_value : T) (c : Config) where
  -- Execute up to its loop.
  unfoldable pub start : Option Error → Race T
  start (some e) = record {
    fired = 0;
    running = 0;
    results = [];
    collected = 0;
    first_err = none;
    armed = false;
    ctx_err = some e;
    outcome = some (zero_value, some e);
    received = [];
  }
  start none = record {
    fired = 1;
    running = 1;
    results = [];
    collected = 0;
    first_err = none;
    armed = true;
    ctx_err = none;
    outcome = none;
    received = [];
  }

  -- The end of `fire`, by the case that sends: it waits while the channel is full.
  unfoldable pub fire_ends : Result T → Race T → Option (Race T)
  fire_ends r race =
      if race.running == 0
      then none
      else if ltb (length race.results) (pos_part c.max_attempts)
      then some (record race { running = race.running - 1; results = race.results ++ (r ∷ []) })
      else none

  -- The end of `fire`, by the case <-hedgeCtx.Done(): the context has ended or Execute has returned.
  unfoldable pub fire_drops : Race T → Option (Race T)
  fire_drops race =
      let dropped : Option (Race T) = some (record race { running = race.running - 1 }) in
      if race.running == 0 then none else elim race.outcome [
        | some _ ↦ dropped
        | none ↦ elim race.ctx_err [ some e ↦ dropped | none ↦ none ]
      ]

  -- The case of the loop that has received the result (v, err).
  unfoldable pub collect : T → Option Error → List (Result T) → Race T → Race T
  collect v none rest race = record race {
    results = rest;
    collected = race.collected + 1;
    received = race.received ++ ((v, none) ∷ []);
    outcome = some (v, none);
  }
  collect v (some e) rest race =
      let collected' = race.collected + 1 in
      let first = or_else race.first_err e in
      let all_done = collected' == race.fired && race.fired == pos_part c.max_attempts in
      record race {
        results = rest;
        collected = collected';
        first_err = first;
        received = race.received ++ ((v, some e) ∷ []);
        outcome = if all_done then some (zero_value, first) else none;
      }

  unfoldable pub on_timer : Race T → Race T
  on_timer race =
      if ltb race.fired (pos_part c.max_attempts)
      then record race { fired = race.fired + 1; running = race.running + 1; armed = true }
      else record race { armed = false }

  -- none: the event cannot happen, or its goroutine waits.
  unfoldable pub step : Event T → Race T → Option (Race T)
  unfolding fire_ends fire_drops collect on_timer
  step (fn_returns r) race = fire_ends r race
  step drops race = fire_drops race
  step (ctx_ends e) race = some (record race { ctx_err = or_else race.ctx_err e })
  step receives race = elim race.outcome [
    | some _ ↦ none
    | none ↦ elim race.results [ [] ↦ none | r ∷ rest ↦ some (collect r.0 r.1 rest race) ]
  ]
  step timer_fires race = elim race.outcome [
    | some _ ↦ none
    | none ↦ if race.armed then some (on_timer race) else none
  ]
  step ctx_done race = elim race.outcome [
    | some _ ↦ none
    | none ↦ elim race.ctx_err [
      | none ↦ none
      | some e ↦ some (record race { outcome = some (zero_value, some e) })
    ]
  ]

  unfoldable pub run : List (Event T) → Race T → Option (Race T)
  unfolding step
  run [] race = some race
  run (e ∷ es) race = elim (step e race) [ none ↦ none | some race' ↦ run es race' ]
