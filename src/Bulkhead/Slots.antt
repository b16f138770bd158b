-- ===== src/Bulkhead/Slots.antt =====
-- What one step does to the slots and to the request of its call (bulkhead/bulkhead.go).
use fortify.Base.{
  IfSome, ℕ, ◌+◌, ◌≤◌, ◌≡◌, refl, Bool, true, false, not, ◌&&◌, ◌||◌, leb, ◌==◌, pos_part, arith,
}
use fortify.Bulkhead.Config.{Config}
use fortify.Bulkhead.Defs.{
  Place, at_done, at_sem, in_fn, at_queue_sem, at_queue, at_result, returned, Job, not_taken, held,
  running, answered, over, Branch, is_some, Shared, Result, Call, check_done, sem_select, enqueue,
  execute_direct, queue_sem_select, queue_select, hand_over, result_select, worker_select,
  job_returns, job_releases, send,
}
use fortify.Bulkhead.System.{
  Happening, ctx_ends, queue_expires, selects, fn_returns, worker_selects, job_gets, job_ends,
  select, happen,
}

-- The slots of sem that a call holds, itself and by the goroutine of the worker, and its slot of
-- queueSem.
abbrev pub by_place : Place → ℕ
by_place in_fn = 1
by_place _ = 0

abbrev pub by_job : Job → ℕ
by_job running = 1
by_job answered = 1
by_job _ = 0

abbrev pub in_line : Place → ℕ
in_line at_queue = 1
in_line at_result = 1
in_line _ = 0

-- How often fn was called, whether resultCh is empty, and whether fn has returned, by what has
-- become of the request.
abbrev pub job_sound : Job → ℕ → Bool → Bool → Bool
job_sound not_taken starts replied done = starts == 0 && not replied && not done
job_sound held starts replied done = starts == 0 && not replied && not done
job_sound running starts replied done = starts == 1 && not replied && not done
job_sound answered starts replied done = starts == 1 && done
job_sound over starts replied done = leb starts 1

abbrev pub not_yet : Job → Bool
not_yet not_taken = true
not_yet _ = false

abbrev pub place_sound : Place → Job → ℕ → Bool → Bool → Bool
place_sound in_fn job starts replied done = not_yet job && starts == 1 && not replied && not done
place_sound at_result job starts replied done = job_sound job starts replied done
place_sound returned job starts replied done =
    job_sound job starts replied done || not_yet job && starts == 1 && not replied && done
place_sound _ job starts replied done = not_yet job && starts == 0 && not replied && not done

module _ {T : Type 0} where
  abbrev pub sound : Call T → Bool
  sound call =
      place_sound call.place call.job call.starts (is_some call.reply) (is_some call.fn_result)

  abbrev pub slots : Call T → ℕ
  slots call = by_place call.place + by_job call.job

  abbrev pub lines : Call T → ℕ
  lines call = in_line call.place

  -- The step keeps the call sound, and moves as many slots on the channels as it gives to or takes
  -- from the call.
  pub record Keeps (c : Config) (call : Call T) (s : Shared) (out : Call T × Shared) : Type 0 where
    pub sound_after : sound out.0 ≡ true
    pub sem_after : out.1.sem + slots call ≡ s.sem + slots out.0
    pub queue_after : out.1.queue_sem + lines call ≡ s.queue_sem + lines out.0
    pub sem_fits : out.1.sem ≤ pos_part c.max_concurrent
    pub queue_fits : out.1.queue_sem ≤ pos_part c.max_queue

  pub record Before (c : Config) (call : Call T) (s : Shared) : Type 0 where
    pub sound_before : sound call ≡ true
    pub sem_before : slots call ≤ s.sem
    pub queue_before : lines call ≤ s.queue_sem
    pub sem_fit : s.sem ≤ pos_part c.max_concurrent
    pub queue_fit : s.queue_sem ≤ pos_part c.max_queue

module _ {T : Type 0} (zero_value : T) (c : Config) (call : Call T) (s : Shared)
    (b : Before c call s) where
  at_sem-Keeps :
      (branch : Branch)
      → call.place ≡ at_sem
      → IfSome (Keeps c call s) (sem_select zero_value c branch call s)
  unfolding sem_select enqueue
  at_sem-Keeps branch h = ground (arith, h)

  at_done-Keeps : call.place ≡ at_done → Keeps c call s (check_done zero_value c call s)
  unfolding check_done
  at_done-Keeps h = ground (arith, h)

  in_fn-Keeps :
      (r : Result T) → call.place ≡ in_fn → Keeps c call s (execute_direct zero_value c r call s)
  unfolding execute_direct
  in_fn-Keeps r h = ground (arith, h)

  at_queue_sem-Keeps :
      (branch : Branch)
      → call.place ≡ at_queue_sem
      → IfSome (Keeps c call s) (queue_sem_select zero_value c branch call s)
  unfolding queue_sem_select
  at_queue_sem-Keeps branch h = ground (arith, h)

  at_queue-Keeps :
      (branch : Branch)
      → call.place ≡ at_queue
      → IfSome (Keeps c call s) (queue_select zero_value c branch call s)
  unfolding queue_select hand_over
  at_queue-Keeps branch h = ground (arith, h)

  at_result-Keeps :
      (branch : Branch)
      → call.place ≡ at_result
      → IfSome (Keeps c call s) (result_select zero_value c branch call s)
  unfolding result_select
  at_result-Keeps branch h = ground (arith, h)

  worker-Keeps :
      (branch : Branch)
      → call.job ≡ held
      → IfSome (Keeps c call s) (worker_select zero_value c branch call s)
  unfolding worker_select send
  worker-Keeps branch h = ground (arith, h)

  job_returns-Keeps :
      (r : Result T)
      → call.job ≡ running
      → IfSome (Keeps c call s) (job_returns zero_value c r call s)
  unfolding job_returns send
  job_returns-Keeps r h = ground (arith, h)

  job_releases-Keeps : call.job ≡ answered → Keeps c call s (job_releases zero_value c call s)
  unfolding job_releases
  job_releases-Keeps h = ground (arith, h)

  select-Keeps :
      (place : Place) (branch : Branch)
      → call.place ≡ place
      → IfSome (Keeps c call s) (select zero_value c place branch call s)
  unfolding select
  select-Keeps at_done branch h = at_done-Keeps h
  select-Keeps at_sem branch h = at_sem-Keeps branch h
  select-Keeps in_fn branch h = tt
  select-Keeps at_queue_sem branch h = at_queue_sem-Keeps branch h
  select-Keeps at_queue branch h = at_queue-Keeps branch h
  select-Keeps at_result branch h = at_result-Keeps branch h
  select-Keeps returned branch h = tt

  pub happen-Keeps : (h : Happening T) → IfSome (Keeps c call s) (happen zero_value c h call s)
  unfolding happen
  happen-Keeps (ctx_ends e) = ground arith
  happen-Keeps queue_expires = ground arith
  happen-Keeps (selects branch) = select-Keeps call.place branch refl
  happen-Keeps (fn_returns r) = ground (arith, in_fn-Keeps r)
  happen-Keeps (worker_selects branch) = ground (arith, worker-Keeps branch)
  happen-Keeps (job_gets r) = ground (arith, job_returns-Keeps r)
  happen-Keeps job_ends = ground (arith, job_releases-Keeps)
