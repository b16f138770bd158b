-- ===== src/CircuitBreaker/Transitions.antt =====
-- Which state changes the steps of circuitbreaker/breaker.go make, and the generation that tells
-- one stay in a state from the next.
use fortify.Base.{ℕ, ◌≤◌, ◌<◌, ◌≡◌, refl, sym, subst, ◌∙◌, arith, Float64, List, [], ◌∷◌}
use fortify.CircuitBreaker.Counts.{state_open}
use fortify.CircuitBreaker.Breaker.{
  CircuitBreaker, before_request, after_request, read_state, reset, close,
}
use fortify.CircuitBreaker.Execute.{
  Op, before_op, after_op, read_op, reset_op, dispatch_op, close_op, step, run, dispatch,
}

-- The step reads the clock at `deadline` or before, and is no manual Reset.
abbrev pub Before : ℕ → Op → Type 0
Before deadline (before_op t) = t.now ≤ deadline
Before deadline (after_op generation success t) = t.now ≤ deadline
Before deadline (read_op t) = t.now ≤ deadline
Before deadline (reset_op t) = ⊥
Before deadline (dispatch_op pick) = Unit
Before deadline close_op = Unit

abbrev pub AllBefore : ℕ → List Op → Type 0
AllBefore deadline [] = Unit
AllBefore deadline (op ∷ ops) = Before deadline op × AllBefore deadline ops

module _ ⦃fl : Float64⦄ where
  step_open :
      (op : Op) (cb : CircuitBreaker)
      → cb.state ≡ state_open
      → Before cb.expiry op
      → ((step op cb).state ≡ state_open)
        × ((step op cb).expiry ≡ cb.expiry)
        × ((step op cb).generation ≡ cb.generation)
        × ((step op cb).counts ≡ cb.counts)
  unfolding step after_request before_request read_state dispatch close
  step_open (before_op t) cb s h = ground arith
  step_open (after_op generation success t) cb s h = ground arith
  step_open (read_op t) cb s h = ground arith
  step_open (reset_op t) cb s h = absurd h
  step_open (dispatch_op pick) cb s h = ground arith
  step_open close_op cb s h = ground arith

  -- Up to its expiry an open breaker stays open, in the same generation and with the same expiry
  -- and counters, whatever requests are tried or finish meanwhile, if nobody calls Reset.
  pub open_until_expiry :
      (ops : List Op) (cb : CircuitBreaker)
      → cb.state ≡ state_open
      → AllBefore cb.expiry ops
      → ((run ops cb).state ≡ state_open)
        × ((run ops cb).expiry ≡ cb.expiry)
        × ((run ops cb).generation ≡ cb.generation)
        × ((run ops cb).counts ≡ cb.counts)
  unfolding run
  open_until_expiry [] cb s h = (s, refl, refl, refl)
  open_until_expiry (op ∷ ops) cb s h =
      let (s', e, g, c) = step_open op cb s h.0 in
      let (s'', e', g', c') =
        open_until_expiry ops (step op cb) s' (subst (λ x. AllBefore x ops) (sym e) h.1) in
      (s'', e' ∙ e, g' ∙ g, c' ∙ c)

  -- A step that leaves the generation, a uint64, alone leaves the state alone.
  generation_guards_state :
      (op : Op) (cb : CircuitBreaker)
      → cb.generation < 18446744073709551616
      → (step op cb).generation ≡ cb.generation
      → (step op cb).state ≡ cb.state
  unfolding step after_request before_request read_state reset dispatch close
  generation_guards_state (before_op t) cb g h = ground arith
  generation_guards_state (after_op generation success t) cb g h = ground arith
  generation_guards_state (read_op t) cb g h = ground arith
  generation_guards_state (reset_op t) cb g h = ground arith
  generation_guards_state (dispatch_op pick) cb g h = ground arith
  generation_guards_state close_op cb g h = ground arith
