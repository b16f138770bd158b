-- ===== src/Examples/BulkheadCases.antt =====
-- A bulkhead with one slot and a queue of one at work (bulkhead/).
use fortify.Base.{
  ℕ, ◌≤◌, ◌≡◌, ◌≢◌, refl, inl, Option, none, some, List, [], ◌∷◌, ◌++◌, pos, pos_part, All,
}
use fortify.Bulkhead.Config.{Config, set_defaults}
use fortify.Bulkhead.Defs.{at_result, held, on_done, on_ctx, on_slot, on_default, Call, send}
use fortify.Bulkhead.System.{
  call_at, selects, fn_returns, worker_selects, job_gets, job_ends, queue_expires, Event, arrives,
  happens, closes, System, new, run,
}
use fortify.Bulkhead.Slots.{slots, lines}
use fortify.Bulkhead.Invariant.{total}
use fortify.Bulkhead.Calls.{Reached, slots_bounded, FnOnce, fn_called_once, send_never_blocks}

abbrev config : Config
config = record { queue_timeout = pos 5; max_concurrent = pos 1; max_queue = pos 1 }

-- Call 0 is in fn, and the worker holds the request of call 1.
abbrev queued : List (Event ℕ)
queued =
    arrives none
    ∷ happens 0 (selects on_done)
    ∷ happens 0 (selects on_slot)
    ∷ arrives none
    ∷ happens 1 (selects on_done)
    ∷ happens 1 (selects on_default)
    ∷ happens 1 (selects on_slot)
    ∷ happens 1 (selects on_slot)
    ∷ []

abbrev or_new : Option (System ℕ) → System ℕ
or_new none = new
or_new (some s) = s

abbrev after : List (Event ℕ) → System ℕ
after es = or_new (run 0 (set_defaults config) es new)

abbrev call_1 : Call ℕ
call_1 = record {
  place = at_result;
  ctx_err = none;
  queue_err = none;
  job = held;
  reply = none;
  starts = 0;
  fn_result = none;
  outcome = none;
}

queued-Reached : Reached 0 config queued (after queued)
unfolding set_defaults run new
queued-Reached = refl

call_1_held : call_at 1 (after queued).calls ≡ some call_1
unfolding set_defaults run new
call_1_held = refl

slots_bounded_example :
    let s = after queued in
    let c = set_defaults config in
    (s.shared.sem ≡ total slots s.calls)
    × (total slots s.calls ≤ pos_part c.max_concurrent)
    × (s.shared.queue_sem ≡ total lines s.calls)
    × (total lines s.calls ≤ pos_part c.max_queue)
slots_bounded_example = slots_bounded 0 config queued (after queued) queued-Reached

-- The deadline of call 1 passes and it returns; the worker runs its fn all the same.
abbrev given_up : List (Event ℕ)
given_up =
    queued
    ++ (happens 1 queue_expires
        ∷ happens 1 (selects on_ctx)
        ∷ happens 0 (fn_returns (7, none))
        ∷ happens 1 (worker_selects on_slot)
        ∷ happens 1 (job_gets (8, none))
        ∷ happens 1 job_ends
        ∷ [])

given_up-Reached : Reached 0 config given_up (after given_up)
unfolding set_defaults run new
given_up-Reached = refl

fn_called_once_example : All (FnOnce 0 config) (after given_up).calls
fn_called_once_example = fn_called_once 0 config given_up (after given_up) given_up-Reached

send_never_blocks_example : send 0 (set_defaults config) (9, none) call_1 ≢ none
send_never_blocks_example =
    send_never_blocks 0 config queued (after queued) 1 call_1 (9, none) queued-Reached call_1_held
      (inl refl)

abbrev closed : System ℕ
closed = after (queued ++ (closes ∷ []))
