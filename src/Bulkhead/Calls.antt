-- ===== src/Bulkhead/Calls.antt =====
-- What a bulkhead (bulkhead/bulkhead.go) promises to its callers.
use fortify.Base.{
  IfSome, ℕ, ◌≤◌, ◌≡◌, ◌≢◌, refl, none, some, List, [], ◌∷◌, pos_part, arith, All, ◌⊎◌,
}
use fortify.Bulkhead.Config.{Config, set_defaults}
use fortify.Bulkhead.Defs.{held, running, Result, Call, send}
use fortify.Bulkhead.System.{call_at, Event, System, new, run}
use fortify.Bulkhead.Slots.{slots, lines}
use fortify.Bulkhead.Results.{Genuine}
use fortify.Bulkhead.Invariant.{total, Inv, CallInv, run-Inv, All-call_at}

module _ {T : Type 0} (zero_value : T) (config : Config) where
  abbrev c : Config
  c = set_defaults config

  new-Inv : Inv zero_value c new
  unfolding new
  new-Inv = record {
    each = tt;
    sem_exact = refl;
    queue_exact = refl;
    sem_fits = omega arith;
    queue_fits = omega arith;
  }

  abbrev pub Reached : List (Event T) → System T → Type 0
  Reached es s = run zero_value c es new ≡ some s

  Reached-Inv : (es : List (Event T)) (s : System T) → Reached es s → Inv zero_value c s
  Reached-Inv es s r = run-Inv zero_value c es new s r new-Inv

  -- In any order of the steps of all goroutines, the slots taken of sem are those of the calls that
  -- are in fn and of the goroutines of the worker that have not ended, and are MaxConcurrent at most,
  -- and the slots taken of queueSem are those of the calls that wait at the queue or for their
  -- result, and are MaxQueue at most. So no slot is lost.
  pub slots_bounded :
      (es : List (Event T)) (s : System T)
      → Reached es s
      → (s.shared.sem ≡ total slots s.calls)
        × (total slots s.calls ≤ pos_part c.max_concurrent)
        × (s.shared.queue_sem ≡ total lines s.calls)
        × (total lines s.calls ≤ pos_part c.max_queue)
  slots_bounded es s r =
      let v = Reached-Inv es s r in
      (
        v.sem_exact,
        omega (arith, v.sem_exact, v.sem_fits),
        v.queue_exact,
        omega (arith, v.queue_exact, v.queue_fits),
      )

  abbrev pub FnOnce : Call T → Type 0
  FnOnce call = (call.starts ≤ 1) × IfSome (Genuine zero_value call) call.outcome

  CallInv-FnOnce : (call : Call T) → CallInv zero_value c call → FnOnce call
  CallInv-FnOnce call v = ground (arith, v.is_sound, v.is_honest.outcome_genuine)

  All-FnOnce : (calls : List (Call T)) → All (CallInv zero_value c) calls → All FnOnce calls
  All-FnOnce [] v = tt
  All-FnOnce (call ∷ calls) v = (CallInv-FnOnce call v.0, All-FnOnce calls v.1)

  -- In any order of the steps of all goroutines, fn is called once at most for each call of Execute,
  -- by the call itself or by the worker's goroutine, and what a call returns is what fn returned to it
  -- or the zero value with an error.
  pub fn_called_once : (es : List (Event T)) (s : System T) → Reached es s → All FnOnce s.calls
  fn_called_once es s r = All-FnOnce s.calls (Reached-Inv es s r).each

  can_send :
      (r : Result T) (call : Call T)
      → CallInv zero_value c call
      → (call.job ≡ held) ⊎ (call.job ≡ running)
      → send zero_value c r call ≢ none
  unfolding send
  can_send r call v h = ground (arith, v.is_sound, h)

  -- In any order of the steps of all goroutines, resultCh is empty whenever the worker holds a
  -- request or its goroutine runs fn, so their sends never block, whether the call still waits for the
  -- result or has given up.
  pub send_never_blocks :
      (es : List (Event T)) (s : System T) (i : ℕ) (call : Call T) (r : Result T)
      → Reached es s
      → call_at i s.calls ≡ some call
      → (call.job ≡ held) ⊎ (call.job ≡ running)
      → send zero_value c r call ≢ none
  send_never_blocks es s i call r reach h job =
      can_send r call
        (All-call_at (CallInv zero_value c) i call s.calls (Reached-Inv es s reach).each h) job
