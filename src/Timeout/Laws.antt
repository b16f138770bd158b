-- ===== src/Timeout/Laws.antt =====
-- What a caller of Execute (timeout/timeout.go) gets.
use fortify.Base.{◌≡◌, ◌≢◌, refl, true, false, ◌⊎◌, inl, inr, none, some, ℤ, arith, Option-cases}
use fortify.Ferrors.{sentinel, timeout_error, deadline_exceeded, err_timeout, is, same}
use fortify.Timeout.{Config, Call, is_deadline, execute}

is-timeout :
    (d : ℤ)
    → (is (timeout_error d) err_timeout ≡ true) × (is (timeout_error d) deadline_exceeded ≡ true)
unfolding is
is-timeout d = (refl, refl)

known_deadline : is_deadline (sentinel deadline_exceeded) ≡ true
unfolding is_deadline same
known_deadline = refl

module _ {T : Type 0} where
  -- What context.WithTimeout documents of the derived context: it has no error, or its own deadline
  -- has passed, or its error is that of the parent.
  abbrev pub Derived : Call T → Type 0
  Derived call =
      (call.ctx_err ≡ none)
      ⊎ (call.ctx_err ≡ some (sentinel deadline_exceeded))
      ⊎ (call.ctx_err ≡ call.parent_err)

  -- A timeout of Execute's own: the parent has no error.
  abbrev pub TimedOut : Config → T → ℤ → Call T → Type 0
  TimedOut c zero_value timeout call =
      let out = execute c zero_value timeout call in
      (call.parent_err ≡ none)
      × (out.value ≡ zero_value)
      × (out.notified ≡ c.on_timeout)
      × (out.err ≡ some (timeout_error out.limit))
      × (is (timeout_error out.limit) err_timeout ≡ true)
      × (is (timeout_error out.limit) deadline_exceeded ≡ true)

  -- If the contexts are as package context documents, Execute returns the result of the operation
  -- when the context that it derived has no error after it, and else the zero value: with the
  -- parent's error verbatim if there is one, and with a TimeoutError that errors.Is finds to be both
  -- ErrTimeout and context.DeadlineExceeded if not. OnTimeout is called in the last case only.
  pub execute_cases :
      (c : Config) (zero_value : T) (timeout : ℤ) (call : Call T)
      → Derived call
      → let out = execute c zero_value timeout call in
        ((call.ctx_err ≡ none) × ((out.value, out.err) ≡ call.result) × (out.notified ≡ false))
        ⊎ ((call.ctx_err ≢ none)
            × (call.parent_err ≢ none)
            × (out.value ≡ zero_value)
            × (out.err ≡ call.parent_err)
            × (out.notified ≡ false))
        ⊎ ((call.ctx_err ≢ none) × TimedOut c zero_value timeout call)
  unfolding execute
  execute_cases c zero_value timeout call d = elim (Option-cases call.ctx_err) [
    | inl alive ↦ ground (arith, alive)
    | inr (e, over) ↦ elim (Option-cases call.parent_err) [
      | inl free ↦ ground (
        arith,
        over,
        free,
        d,
        known_deadline,
        is-timeout (execute c zero_value timeout call).limit,
      )
      | inr (f, ended) ↦ ground (arith, over, ended)
    ]
  ]
