-- ===== src/Bulkhead/Defs.antt =====
-- The selects of bulkhead/bulkhead.go, one function for each, on one call of Execute and the channels
-- that the calls share. A send or a receive that would block gives none.
use fortify.Base.{
  ℕ, ◌+◌, ◌-◌, Bool, true, false, ◌||◌, if◌then◌else◌, ltb, ◌==◌, Option, none, some, pos_part,
}
use fortify.Ferrors.{Error, sentinel, err_bulkhead_full}
use fortify.Bulkhead.Config.{Config}

-- Where the goroutine of a call of Execute stands: before each of its selects, in fn, or after its
-- return.
pub data Place : Type 0 where
  at_done at_sem in_fn at_queue_sem at_queue at_result returned : Place

-- What has become of the request of a call: the worker has not received it, holds it, has started
-- a goroutine that runs fn, that goroutine has sent the result and has still to release its slot,
-- or all is done.
pub data Job : Type 0 where
  not_taken held running answered over : Job

-- The worker receives, waits for a slot for the request that it holds, or drains the queue; or it
-- has returned.
pub data Worker : Type 0 where
  receiving holding draining stopped : Worker

-- The case that a select takes: b.done, a context's end, the channel that it waits for, default.
pub data Branch : Type 0 where
  on_done on_ctx on_slot on_default : Branch

abbrev pub is_some {ℓ} : {A : Type ℓ} → Option A → Bool
is_some none = false
is_some (some a) = true

-- The lengths of the channels sem and queueSem, whether done is closed, the worker, and how often
-- OnRejected is called.
pub record Shared : Type 0 where
  pub sem : ℕ
  pub queue_sem : ℕ
  pub closed : Bool
  pub worker : Worker
  pub rejections : ℕ

module _ (T : Type 0) where
  abbrev pub Result : Type 0
  Result = T × Option Error

  -- The errors of ctx and of queueCtx, the channel resultCh, how often fn was called and what it
  -- returned, and what Execute returned.
  pub record Call : Type 0 where
    pub place : Place
    pub ctx_err : Option Error
    pub queue_err : Option Error
    pub job : Job
    pub reply : Option Result
    pub starts : ℕ
    pub fn_result : Option Result
    pub outcome : Option Result

module _ {T : Type 0} (zero_value : T) (c : Config) where
  abbrev pub fails : Error → Result T
  fails e = (zero_value, some e)

  abbrev pub full : Result T
  full = fails (sentinel err_bulkhead_full)

  abbrev pub returns : Result T → Call T → Call T
  returns r call = record call { place = returned; outcome = some r }

  abbrev reject : Shared → Shared
  reject s = record s { rejections = s.rejections + 1 }

  abbrev leave_queue : Shared → Shared
  leave_queue s = record s { queue_sem = s.queue_sem - 1 }

  -- A case on a context, and on b.done.
  abbrev on_error : Option Error → Call T → Shared → Option (Call T × Shared)
  on_error none call s = none
  on_error (some e) call s = some (returns (fails e) call, s)

  abbrev if_closed : Call T → Shared → Option (Call T × Shared)
  if_closed call s = if s.closed then some (returns full call, s) else none

  -- The first select of Execute.
  unfoldable pub check_done : Call T → Shared → Call T × Shared
  check_done call s =
      if s.closed then (returns full call, s) else (record call { place = at_sem }, s)

  -- enqueue up to its select.
  unfoldable pub enqueue : Call T → Shared → Call T × Shared
  enqueue call s =
      if pos_part c.max_queue == 0
      then (returns full call, reject s)
      else (record call { place = at_queue_sem }, s)

  -- The second select of Execute.
  unfoldable pub sem_select : Branch → Call T → Shared → Option (Call T × Shared)
  unfolding enqueue
  sem_select on_done call s = if_closed call s
  sem_select on_ctx call s = on_error call.ctx_err call s
  sem_select on_slot call s =
      if ltb s.sem (pos_part c.max_concurrent)
      then some
          (record call { place = in_fn; starts = call.starts + 1 }, record s { sem = s.sem + 1 })
      else none
  sem_select on_default call s =
      if ltb s.sem (pos_part c.max_concurrent) || is_some call.ctx_err || s.closed
      then none
      else some (enqueue call s)

  -- execute, once fn has returned r.
  unfoldable pub execute_direct : Result T → Call T → Shared → Call T × Shared
  execute_direct r call s =
      (record (returns r call) { fn_result = some r }, record s { sem = s.sem - 1 })

  -- The selects of enqueue, the outer first.
  unfoldable pub queue_sem_select : Branch → Call T → Shared → Option (Call T × Shared)
  queue_sem_select on_done call s = if_closed call s
  queue_sem_select on_ctx call s = on_error call.queue_err call (reject s)
  queue_sem_select on_slot call s =
      if ltb s.queue_sem (pos_part c.max_queue)
      then some (record call { place = at_queue }, record s { queue_sem = s.queue_sem + 1 })
      else none
  queue_sem_select on_default call s =
      if ltb s.queue_sem (pos_part c.max_queue) || is_some call.queue_err || s.closed
      then none
      else some (returns full call, reject s)

  -- The channel queue has no buffer: the request goes to the worker, or to its drainQueue.
  unfoldable pub hand_over : Worker → Call T → Shared → Option (Call T × Shared)
  hand_over receiving call s =
      some (record call { place = at_result; job = held }, record s { worker = holding })
  hand_over draining call s =
      some (record call { place = at_result; job = over; reply = some full }, s)
  hand_over _ call s = none

  unfoldable pub queue_select : Branch → Call T → Shared → Option (Call T × Shared)
  unfolding hand_over
  queue_select on_done call s = if_closed call (leave_queue s)
  queue_select on_ctx call s = on_error call.queue_err call (leave_queue s)
  queue_select on_slot call s = hand_over s.worker call s
  queue_select on_default call s = none

  unfoldable pub result_select : Branch → Call T → Shared → Option (Call T × Shared)
  result_select on_done call s = if_closed call (leave_queue s)
  result_select on_ctx call s = on_error call.queue_err call (leave_queue s)
  result_select on_slot call s = elim call.reply [
    | none ↦ none
    | some r ↦ some (record (returns r call) { reply = none }, leave_queue s)
  ]
  result_select on_default call s = none

  -- A send on resultCh, whose buffer holds one result: none if it would block.
  unfoldable pub send : Result T → Call T → Option (Call T)
  send r call = elim call.reply [ none ↦ some (record call { reply = some r }) | some _ ↦ none ]

  abbrev sends : Result T → Job → Call T → Shared → Option (Call T × Shared)
  sends r job call s = elim (send r call) [
    | none ↦ none
    | some call' ↦ some (record call' { job = job }, s)
  ]

  -- The inner select of the worker, for the request that it holds.
  unfoldable pub worker_select : Branch → Call T → Shared → Option (Call T × Shared)
  unfolding send
  worker_select on_done call s =
      if s.closed then sends full over call (record s { worker = draining }) else none
  worker_select on_ctx call s = elim call.ctx_err [
    | none ↦ none
    | some e ↦ sends (fails e) over call (record s { worker = receiving })
  ]
  worker_select on_slot call s =
      if ltb s.sem (pos_part c.max_concurrent)
      then some (
        record call { job = running; starts = call.starts + 1 },
        record s { sem = s.sem + 1; worker = receiving },
      )
      else none
  worker_select on_default call s = none

  -- The goroutine of the worker: fn has returned r and its result is sent, then its slot is released.
  unfoldable pub job_returns : Result T → Call T → Shared → Option (Call T × Shared)
  unfolding send
  job_returns r call s = sends r answered (record call { fn_result = some r }) s

  unfoldable pub job_releases : Call T → Shared → Call T × Shared
  job_releases call s = (record call { job = over }, record s { sem = s.sem - 1 })
