-- ===== src/Retry/Attempts.antt =====
-- How often the loop of retry/retry.go calls the operation, and what it returns.
use fortify.Base.{
  ℕ, zero, suc, ◌+◌, ◌-◌, ◌≤◌, ◌<◌, ◌≡◌, ◌≢◌, ap, subst, ◌∙◌, Bool, true, false, not, ◌⊎◌, inl,
  Option, none, some, arith, Float64, pos_part,
}
use fortify.Ferrors.{Error}
use fortify.Retry.Config.{Config, set_defaults}
use fortify.Retry.Loop.{Attempt, is_retryable, loop, execute}

module _ ⦃fl : Float64⦄ where
  -- The result ends the retries: success, or an error that is not retryable.
  abbrev pub settles {ℓ} : {T : Type ℓ} → Config → T × Option Error → Bool
  settles c (v, none) = true
  settles c (v, some e) = not (is_retryable c e)

  -- How many times fn may be called under the configuration.
  abbrev pub limit : Config → ℕ
  limit c = pos_part (set_defaults c).max_attempts

  module _ {T : Type 0} (c : Config) (world : ℕ → Attempt T) where
    loop_calls : (left a : ℕ) (r : T × Option Error) → (loop c world left a r).calls ≤ left
    unfolding loop
    loop_calls zero a (v, e) = omega arith
    loop_calls (suc left) a (v, e) = ground (arith, loop_calls left (suc a) (world a).result)

    -- The result of the call numbered n, for the rounds from `a` on.
    abbrev nth : ℕ → ℕ → T × Option Error
    nth a n = (world (a + n - 1)).result

    nth-suc : (a n : ℕ) → 0 < n → nth (suc a) n ≡ nth a (n + 1)
    nth-suc a n h = ap (λ i. (world i).result) (omega arith)

    nth_one : (a : ℕ) → nth a 1 ≡ (world a).result
    nth_one a = ap (λ i. (world i).result) (omega arith)

    loop_success :
        (left a : ℕ) (r : T × Option Error)
        → (0 < left) ⊎ (r.1 ≢ none)
        → (loop c world left a r).err ≡ none
        → (0 < (loop c world left a r).calls)
          × (nth a (loop c world left a r).calls ≡ ((loop c world left a r).value, none))
    unfolding loop
    loop_success zero a (v, e) p h = ground arith
    loop_success (suc left) a (v, e) p h = ground (
      arith,
      nth_one a,
      nth-suc a (loop c world left (suc a) (world a).result).calls,
      loop_success left (suc a) (world a).result,
    )

    -- No context ends, before an attempt or in a wait.
    module _ (live : (i : ℕ) → (world i).ctx_err ≡ none)
        (waits : (i : ℕ) → (world i).interrupted ≡ none) where
      loop_settled :
          (left a : ℕ) (r : T × Option Error)
          → 0 < left
          → a + left ≡ pos_part c.max_attempts + 1
          → (0 < (loop c world left a r).calls)
            × (((loop c world left a r).value, (loop c world left a r).err)
                ≡ nth a (loop c world left a r).calls)
            × (((loop c world left a r).calls ≡ left)
                ⊎ (settles c (nth a (loop c world left a r).calls) ≡ true))
      unfolding loop
      loop_settled zero a r h k = elim h [ ]
      loop_settled (suc left) a (v, e) h k = ground (
        arith,
        live a,
        waits a,
        nth_one a,
        nth-suc a (loop c world left (suc a) (world a).result).calls,
        loop_settled left (suc a) (world a).result,
      )

      loop_retried :
          (i left a : ℕ) (r : T × Option Error)
          → a + left ≡ pos_part c.max_attempts + 1
          → suc i < (loop c world left a r).calls
          → settles c (nth a (suc i)) ≡ false
      unfolding loop
      loop_retried i zero a (v, e) k h = elim h [ ]
      loop_retried zero (suc left) a (v, e) k h = ground (arith, live a, waits a, nth_one a)
      loop_retried (suc i) (suc left) a (v, e) k h =
          ground (
            arith,
            live a,
            waits a,
            nth-suc a (suc i),
            loop_retried i left (suc a) (world a).result,
          )

  limit_pos : (c : Config) → 0 < limit c
  unfolding set_defaults
  limit_pos c = ground arith

  module _ {T : Type 0} (c : Config) (zero_value : T) (world : ℕ → Attempt T) where
    -- Execute calls fn MaxAttempts times at most, whatever the results and the context.
    execute_calls : (execute c zero_value world).calls ≤ limit c
    unfolding execute
    execute_calls = loop_calls (set_defaults c) world (limit c) 1 (zero_value, none)

    -- If Execute returns no error, it has called fn, and what it returns is the success of the last
    -- call, whatever the context did.
    execute_success :
        (execute c zero_value world).err ≡ none
        → let out = execute c zero_value world in
          (0 < out.calls) × ((world out.calls).result ≡ (out.value, none))
    unfolding execute
    execute_success h =
        let d = set_defaults c in
        let start : T × Option Error = (zero_value, none) in
        let (p, r) = loop_success d world (limit c) 1 start (inl (limit_pos c)) h in
        (p, ap (λ i. (world i).result) (omega arith) ∙ r)

    -- While the context lives, Execute calls fn at least once and MaxAttempts times at most, returns
    -- the result of its last call, and stops there because MaxAttempts is reached or because that
    -- result is a success or an error not to be retried.
    pub execute_settled :
        ((i : ℕ) → (world i).ctx_err ≡ none)
        → ((i : ℕ) → (world i).interrupted ≡ none)
        → let out = execute c zero_value world in
          (0 < out.calls)
          × (out.calls ≤ limit c)
          × ((out.value, out.err) ≡ (world out.calls).result)
          × ((out.calls ≡ limit c) ⊎ (settles (set_defaults c) (world out.calls).result ≡ true))
    unfolding execute
    execute_settled live waits =
        let d = set_defaults c in
        let out = execute c zero_value world in
        let (p, r, s) =
          loop_settled d world live waits (limit c) 1 (zero_value, none) (limit_pos c)
            (omega arith) in
        let q : (world (1 + out.calls - 1)).result ≡ (world out.calls).result =
          ap (λ i. (world i).result) (omega arith) in
        (p, execute_calls, r ∙ q, subst (λ x. (out.calls ≡ limit c) ⊎ (settles d x ≡ true)) q s)

    -- While the context lives, every call before the last one ended in an error to be retried.
    pub execute_retried :
        ((i : ℕ) → (world i).ctx_err ≡ none)
        → ((i : ℕ) → (world i).interrupted ≡ none)
        → (i : ℕ) → 0 < i
        → i < (execute c zero_value world).calls
        → settles (set_defaults c) (world i).result ≡ false
    unfolding execute
    execute_retried live waits zero p h = elim p [ ]
    execute_retried live waits (suc i) p h =
        let d = set_defaults c in
        ap (λ j. settles d (world j).result) (omega arith)
        ∙ loop_retried d world live waits i (limit c) 1 (zero_value, none) (omega arith) h
