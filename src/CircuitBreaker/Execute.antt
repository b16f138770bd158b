-- ===== src/CircuitBreaker/Execute.antt =====
-- circuitbreaker/breaker.go: the lock-free fast path, Execute, the dispatcher, and runs of the
-- methods by several goroutines, each of which is one step under the mutex.
use fortify.Base.{
  ℕ, Bool, true, false, not, ◌&&◌, ◌||◌, leb, if◌then◌else◌, Option, none, some, List, [], ◌∷◌,
  Float64, is_pos,
}
use fortify.Ferrors.{Error}
use fortify.CircuitBreaker.Counts.{state_closed}
use fortify.CircuitBreaker.Config.{Config, no_error}
use fortify.CircuitBreaker.Breaker.{
  CircuitBreaker, StateChange, Moment, same_state, before_request, after_request, read_state, reset,
  close,
}

pub data Op : Type 0 where
  before_op : Moment → Op
  after_op : ℕ → Bool → Moment → Op
  read_op reset_op : Moment → Op
  dispatch_op : Bool → Op
  close_op : Op

module _ ⦃fl : Float64⦄ where
  -- fastAdmit. Its atomic loads happen one after the other, so each reads a breaker of its own:
  -- the state, the expiry, the state again and the generation.
  unfoldable pub fast_admit :
      ℕ → CircuitBreaker → CircuitBreaker → CircuitBreaker → CircuitBreaker → Option ℕ
  unfolding same_state
  fast_admit now s1 s2 s3 s4 =
      if not (same_state s1.fast_state state_closed)
      then none
      else if is_pos s1.config.interval && leb s2.fast_expiry now
      then none
      else if not (same_state s3.fast_state state_closed)
      then none
      else some s4.fast_gen

  -- config.IsSuccessful(err): setDefaults has replaced nil.
  unfoldable pub is_successful : Config → Option Error → Bool
  unfolding no_error
  is_successful c err = elim c.is_successful [ some f ↦ f err | none ↦ no_error err ]

  -- One pass of the loop of dispatchStateChanges: the event that goes to the callback. With done
  -- closed too, the select takes either case.
  unfoldable pub dispatch : Bool → CircuitBreaker → CircuitBreaker × Option StateChange
  dispatch pick cb = elim cb.state_changes [
    | none ↦ (cb, none)
    | some [] ↦ (cb, none)
    | some (ev ∷ rest) ↦
        if not cb.done_closed || pick
        then (record cb { state_changes = some rest }, some ev)
        else (cb, none)
  ]

  unfoldable pub step : Op → CircuitBreaker → CircuitBreaker
  step (before_op t) cb = (before_request t cb).0
  step (after_op generation success t) cb = after_request generation success t cb
  step (read_op t) cb = (read_state t cb).0
  step (reset_op t) cb = reset t cb
  step (dispatch_op pick) cb = (dispatch pick cb).0
  step close_op cb = close cb

  unfoldable pub run : List Op → CircuitBreaker → CircuitBreaker
  run [] cb = cb
  run (op ∷ ops) cb = run ops (step op cb)

pub record Others : Type 0 where
  pub load_1 : List Op
  pub load_2 : List Op
  pub load_3 : List Op
  pub lock : List Op
  pub running : List Op

-- What Execute meets: the context, the clock, the result of fn, and the steps that other
-- goroutines make between its own: after each of the first three loads of the fast path, before
-- the lock of the slow path, and while fn runs.
pub record Call (T : Type 0) : Type 0 where
  pub ctx_err : Option Error
  pub fast_now : ℕ
  pub admitted_at : Moment
  pub completed_at : Moment
  pub result : T × Option Error

module _ ⦃fl : Float64⦄ where
  pub record Executed (T : Type 0) : Type 0 where
    pub breaker : CircuitBreaker
    pub value : T
    pub err : Option Error
    pub ran : Bool

  module _ {T : Type 0} where
    -- fn(ctx) and afterRequest.
    unfoldable pub finish : ℕ → Call T → Others → CircuitBreaker → Executed T
    unfolding is_successful
    finish generation call others cb =
        let later = run others.running cb in
        record {
          breaker =
              after_request generation (is_successful cb.config call.result.1) call.completed_at
                later;
          value = call.result.0;
          err = call.result.1;
          ran = true;
        }

    unfoldable pub execute : T → Call T → Others → CircuitBreaker → Executed T
    unfolding finish
    execute zero_value call others cb = elim call.ctx_err [
      | some e ↦ record { breaker = cb; value = zero_value; err = some e; ran = false }
      | none ↦
          let s2 = run others.load_1 cb in
          let s3 = run others.load_2 s2 in
          let s4 = run others.load_3 s3 in
          elim (fast_admit call.fast_now cb s2 s3 s4) [
            | some generation ↦ finish generation call others s4
            | none ↦
                let (locked, generation, refused) =
                  before_request call.admitted_at (run others.lock s4) in
                elim refused [
                  | some e ↦ record {
                    breaker = locked;
                    value = zero_value;
                    err = some e;
                    ran = false;
                  }
                  | none ↦ finish generation call others locked
                ]
          ]
    ]
