-- ===== src/Middleware/LlmHedge.antt =====
-- LLMHedge of middleware/presets.go: the checks of its configuration, and Run as the steps of its loop
-- and of the goroutines that it dispatches.
pub mod Laws
use fortify.Base.{
  ℕ, zero, suc, ◌+◌, ◌-◌, Bool, true, false, not, ◌&&◌, ◌||◌, if◌then◌else◌, ltb, ◌==◌, Option,
  none, some, List, [], ◌∷◌, ◌++◌, length, ℤ, pos, is_pos, is_neg,
}
use fortify.Ferrors.{Error}
use fortify.Hedge.Defs.{Result, or_else}

-- `attempts` is the number of Attempts: what they do is left to the events. OnHedge only observes.
pub record LlmHedgeConfig : Type 0 where
  pub attempts : ℕ
  pub hedge_after : ℤ
  pub allow_cross_vendor : Bool
  pub all_attempts_same_vendor : Bool

-- LLMHedge, and none for its errors. 800 ms is the default.
unfoldable pub llm_hedge : LlmHedgeConfig → Option LlmHedgeConfig
llm_hedge cfg =
    if cfg.attempts == 0
    then none
    else if is_neg cfg.hedge_after
    then none
    else if ltb 1 cfg.attempts && not cfg.all_attempts_same_vendor && not cfg.allow_cross_vendor
    then none
    else some (record cfg {
      hedge_after = if is_pos cfg.hedge_after then cfg.hedge_after else pos 800000000;
    })

module _ (T : Type 0) where
  -- The variables of Run. `running` counts the goroutines whose attempt has not returned, `results` is
  -- the content of the channel, `armed` whether the timer will fire, and `received` what the loop has
  -- received, in order.
  pub record Round : Type 0 where
    pub next_hedge : ℕ
    pub pending : ℕ
    pub running : ℕ
    pub results : List (Result T)
    pub last_err : Option Error
    pub armed : Bool
    pub ctx_err : Option Error
    pub outcome : Option (Result T)
    pub received : List (Result T)

  -- An attempt returns in its goroutine, which sends the result or drops it; the context ends; the cases
  -- of the select.
  pub data Event : Type 0 where
    attempt_returns : Result T → Event
    ctx_ends : Error → Event
    drops receives timer_fires ctx_done : Event

module _ {T : Type 0} (zero_value : T) (cfg : LlmHedgeConfig) where
  unfoldable pub start : Option Error → Round T
  start err = record {
    next_hedge = 1;
    pending = 1;
    running = 1;
    results = [];
    last_err = none;
    armed = true;
    ctx_err = err;
    outcome = none;
    received = [];
  }

  -- The end of a dispatched goroutine, by the case that sends: the channel has room for all attempts.
  unfoldable pub attempt_ends : Result T → Round T → Option (Round T)
  attempt_ends r run =
      if run.running == 0
      then none
      else if ltb (length run.results) cfg.attempts
      then some (record run { running = run.running - 1; results = run.results ++ (r ∷ []) })
      else none

  -- The same by the case <-rctx.Done(): the context has ended or Run has returned.
  unfoldable pub attempt_drops : Round T → Option (Round T)
  attempt_drops run =
      let dropped : Option (Round T) = some (record run { running = run.running - 1 }) in
      if run.running == 0 then none else elim run.outcome [
        | some _ ↦ dropped
        | none ↦ elim run.ctx_err [ some e ↦ dropped | none ↦ none ]
      ]

  -- The case of the loop that has received (v, err), and the test of `pending > 0` after it.
  unfoldable pub collect : T → Option Error → List (Result T) → Round T → Round T
  collect v none rest run = record run {
    results = rest;
    pending = run.pending - 1;
    received = run.received ++ ((v, none) ∷ []);
    outcome = some (v, none);
  }
  collect v (some e) rest run =
      let pending' = run.pending - 1 in
      record run {
        results = rest;
        pending = pending';
        last_err = some e;
        received = run.received ++ ((v, some e) ∷ []);
        outcome = if pending' == 0 then some (zero_value, some e) else none;
      }

  -- The case of hedgeC, which is nil once all attempts are dispatched.
  unfoldable pub on_timer : Round T → Option (Round T)
  on_timer run =
      if ltb run.next_hedge cfg.attempts
      then if run.armed
        then some (record run {
          next_hedge = run.next_hedge + 1;
          pending = run.pending + 1;
          running = run.running + 1;
          armed = ltb (run.next_hedge + 1) cfg.attempts;
        })
        else none
      else none

  -- none: the event cannot happen, or its goroutine waits.
  unfoldable pub step : Event T → Round T → Option (Round T)
  unfolding attempt_ends attempt_drops collect on_timer
  step (attempt_returns r) run = attempt_ends r run
  step drops run = attempt_drops run
  step (ctx_ends e) run = some (record run { ctx_err = or_else run.ctx_err e })
  step receives run = elim run.outcome [
    | some _ ↦ none
    | none ↦ elim run.results [ [] ↦ none | r ∷ rest ↦ some (collect r.0 r.1 rest run) ]
  ]
  step timer_fires run = elim run.outcome [ some _ ↦ none | none ↦ on_timer run ]
  step ctx_done run = elim run.outcome [
    | some _ ↦ none
    | none ↦ elim run.ctx_err [
      | none ↦ none
      | some e ↦ some (record run { outcome = some (zero_value, some e) })
    ]
  ]

  unfoldable pub run_all : List (Event T) → Round T → Option (Round T)
  unfolding step
  run_all [] run = some run
  run_all (e ∷ es) run = elim (step e run) [ none ↦ none | some run' ↦ run_all es run' ]
