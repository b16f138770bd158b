-- ===== src/Bulkhead/System.antt =====
-- All the goroutines of a bulkhead (bulkhead/bulkhead.go) in any order: the calls of Execute, the
-- worker, the goroutines that it starts, and Close.
use fortify.Base.{
  ℕ, zero, suc, Bool, true, false, if◌then◌else◌, Option, none, some, List, [], ◌∷◌, ◌++◌, is_pos,
  ◌&&◌,
}
use fortify.Ferrors.{Error, sentinel, deadline_exceeded}
use fortify.Bulkhead.Config.{Config}
use fortify.Bulkhead.Defs.{
  Place, at_done, at_sem, in_fn, at_queue_sem, at_queue, at_result, returned, not_taken, held,
  running, answered, Worker, receiving, draining, stopped, Branch, Shared, Result, Call, check_done,
  sem_select, execute_direct, queue_sem_select, queue_select, result_select, worker_select,
  job_returns, job_releases,
}

module _ {ℓ} {A : Type ℓ} where
  abbrev pub call_at : ℕ → List A → Option A
  call_at i [] = none
  call_at zero (x ∷ xs) = some x
  call_at (suc i) (x ∷ xs) = call_at i xs

  abbrev pub put : ℕ → A → List A → List A
  put i y [] = []
  put zero y (x ∷ xs) = y ∷ xs
  put (suc i) y (x ∷ xs) = x ∷ put i y xs

-- What happens to a call: its context ends, the deadline of queueCtx passes, its goroutine goes
-- through the select that it stands before, its fn returns, the worker goes through the select on
-- its request, and the goroutine of the worker gets a result of fn, and ends.
pub data Happening (T : Type 0) : Type 0 where
  ctx_ends : Error → Happening T
  queue_expires : Happening T
  selects : Branch → Happening T
  fn_returns : Result T → Happening T
  worker_selects : Branch → Happening T
  job_gets : Result T → Happening T
  job_ends : Happening T

-- Execute is called; something happens to a call; Close; the worker sees b.done and drains the
-- queue; it finds no sender any more and returns.
pub data Event (T : Type 0) : Type 0 where
  arrives : Option Error → Event T
  happens : ℕ → Happening T → Event T
  closes worker_stops worker_drained : Event T

pub record System (T : Type 0) : Type 0 where
  pub shared : Shared
  pub calls : List (Call T)

abbrev pub new_call : {T : Type 0} → Option Error → Call T
new_call err = record {
  place = at_done;
  ctx_err = err;
  queue_err = err;
  job = not_taken;
  reply = none;
  starts = 0;
  fn_result = none;
  outcome = none;
}

abbrev pub in_queue : Place → Bool
in_queue at_queue_sem = true
in_queue at_queue = true
in_queue at_result = true
in_queue _ = false

abbrev or_else : Option Error → Error → Option Error
or_else none e = some e
or_else (some d) e = some d

-- New. Without a queue there is no worker, and no call ever reaches one.
unfoldable pub new : {T : Type 0} → System T
new = record {
  shared = record { sem = 0; queue_sem = 0; closed = false; worker = receiving; rejections = 0 };
  calls = [];
}

-- Close
unfoldable pub close : Shared → Shared
close s = record s { closed = true }

module _ {T : Type 0} (zero_value : T) (c : Config) where
  unfoldable pub select : Place → Branch → Call T → Shared → Option (Call T × Shared)
  unfolding check_done sem_select queue_sem_select queue_select result_select
  select at_done b call s = some (check_done zero_value c call s)
  select at_sem b call s = sem_select zero_value c b call s
  select at_queue_sem b call s = queue_sem_select zero_value c b call s
  select at_queue b call s = queue_select zero_value c b call s
  select at_result b call s = result_select zero_value c b call s
  select in_fn b call s = none
  select returned b call s = none

  unfoldable pub happen : Happening T → Call T → Shared → Option (Call T × Shared)
  unfolding select execute_direct worker_select job_returns job_releases
  happen (ctx_ends e) call s =
      some
        (record call { ctx_err = or_else call.ctx_err e; queue_err = or_else call.queue_err e }, s)
  happen queue_expires call s =
      if is_pos c.queue_timeout && in_queue call.place
      then some (record call { queue_err = or_else call.queue_err (sentinel deadline_exceeded) }, s)
      else none
  happen (selects b) call s = select call.place b call s
  happen (fn_returns r) call s = elim call.place [
    | in_fn ↦ some (execute_direct zero_value c r call s)
    | _ ↦ none
  ]
  happen (worker_selects b) call s = elim call.job [
    | held ↦ worker_select zero_value c b call s
    | _ ↦ none
  ]
  happen (job_gets r) call s = elim call.job [
    | running ↦ job_returns zero_value c r call s
    | _ ↦ none
  ]
  happen job_ends call s = elim call.job [
    | answered ↦ some (job_releases zero_value c call s)
    | _ ↦ none
  ]

  abbrev sending : List (Call T) → Bool
  sending [] = false
  sending (call ∷ calls) = elim call.place [ at_queue ↦ true | _ ↦ sending calls ]

  abbrev worker_is : Worker → Worker → Bool
  worker_is receiving receiving = true
  worker_is draining draining = true
  worker_is _ _ = false

  -- none: the event cannot happen in this state.
  unfoldable pub step : Event T → System T → Option (System T)
  unfolding happen close
  step (arrives err) s = some (record s { calls = s.calls ++ (new_call err ∷ []) })
  step (happens i h) s = elim (call_at i s.calls) [
    | none ↦ none
    | some call ↦ elim (happen h call s.shared) [
      | none ↦ none
      | some (call', shared') ↦ some (record { shared = shared'; calls = put i call' s.calls })
    ]
  ]
  step closes s = some (record s { shared = close s.shared })
  step worker_stops s =
      if worker_is s.shared.worker receiving && s.shared.closed
      then some (record s { shared = record s.shared { worker = draining } })
      else none
  step worker_drained s =
      if worker_is s.shared.worker draining && (if sending s.calls then false else true)
      then some (record s { shared = record s.shared { worker = stopped } })
      else none

  unfoldable pub run : List (Event T) → System T → Option (System T)
  unfolding step
  run [] s = some s
  run (e ∷ es) s = elim (step e s) [ none ↦ none | some t ↦ run es t ]
