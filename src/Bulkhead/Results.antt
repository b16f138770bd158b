-- ===== src/Bulkhead/Results.antt =====
-- Where the results on resultCh and of Execute come from (bulkhead/bulkhead.go).
use fortify.Base.{IfSome, ◌≡◌, ◌≢◌, refl, true, ◌⊎◌, none, some, arith}
use fortify.Bulkhead.Config.{Config}
use fortify.Bulkhead.Defs.{
  Place, at_done, at_sem, in_fn, at_queue_sem, at_queue, at_result, returned, held, running, Branch,
  Shared, Result, Call, check_done, sem_select, enqueue, execute_direct, queue_sem_select,
  queue_select, hand_over, result_select, worker_select, job_returns, job_releases, send,
}
use fortify.Bulkhead.System.{
  Happening, ctx_ends, queue_expires, selects, fn_returns, worker_selects, job_gets, job_ends,
  select, happen,
}
use fortify.Bulkhead.Slots.{sound}

module _ {T : Type 0} (zero_value : T) where
  -- The result is what fn returned to this call, or the zero value with an error.
  abbrev pub Genuine : Call T → Result T → Type 0
  Genuine call r = (call.fn_result ≡ some r) ⊎ ((r.0 ≡ zero_value) × (r.1 ≢ none))

  pub record Honest (call : Call T) : Type 0 where
    pub reply_genuine : IfSome (Genuine call) call.reply
    pub outcome_genuine : IfSome (Genuine call) call.outcome

  module _ (c : Config) (call : Call T) (s : Shared) (v : sound call ≡ true) (g : Honest call) where
    abbrev After : Call T × Shared → Type 0
    After out = Honest out.0

    select-Honest :
        (place : Place) (branch : Branch)
        → call.place ≡ place
        → IfSome After (select zero_value c place branch call s)
    unfolding select check_done sem_select enqueue queue_sem_select queue_select hand_over
        result_select
    select-Honest at_done branch h = ground (arith, g.reply_genuine, g.outcome_genuine)
    select-Honest at_sem branch h = ground (arith, g.reply_genuine, g.outcome_genuine)
    select-Honest in_fn branch h = tt
    select-Honest at_queue_sem branch h = ground (arith, g.reply_genuine, g.outcome_genuine)
    select-Honest at_queue branch h = ground (arith, g.reply_genuine, g.outcome_genuine)
    select-Honest at_result branch h = ground (arith, g.reply_genuine, g.outcome_genuine)
    select-Honest returned branch h = tt

    in_fn-Honest :
        (r : Result T) → call.place ≡ in_fn → After (execute_direct zero_value c r call s)
    unfolding execute_direct
    in_fn-Honest r h = ground (arith, h, v, g.reply_genuine, g.outcome_genuine)

    worker-Honest :
        (branch : Branch)
        → call.job ≡ held
        → IfSome After (worker_select zero_value c branch call s)
    unfolding worker_select send
    worker-Honest branch h = ground (arith, h, v, g.reply_genuine, g.outcome_genuine)

    job_returns-Honest :
        (r : Result T) → call.job ≡ running → IfSome After (job_returns zero_value c r call s)
    unfolding job_returns send
    job_returns-Honest r h = ground (arith, h, v, g.reply_genuine, g.outcome_genuine)

    job_releases-Honest : After (job_releases zero_value c call s)
    unfolding job_releases
    job_releases-Honest = ground (arith, g.reply_genuine, g.outcome_genuine)

    pub happen-Honest : (h : Happening T) → IfSome After (happen zero_value c h call s)
    unfolding happen
    happen-Honest (ctx_ends e) = ground (arith, g.reply_genuine, g.outcome_genuine)
    happen-Honest queue_expires = ground (arith, g.reply_genuine, g.outcome_genuine)
    happen-Honest (selects branch) = select-Honest call.place branch refl
    happen-Honest (fn_returns r) = ground (arith, in_fn-Honest r)
    happen-Honest (worker_selects branch) = ground (arith, worker-Honest branch)
    happen-Honest (job_gets r) = ground (arith, job_returns-Honest r)
    happen-Honest job_ends = ground (arith, job_releases-Honest)
