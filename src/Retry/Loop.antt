-- ===== src/Retry/Loop.antt =====
-- retry/retry.go: the classification of errors and the loop of Execute.
use fortify.Base.{
  ℕ, zero, suc, ◌+◌, Bool, true, false, not, if◌then◌else◌, ◌==◌, Option, none, some, List, [], ◌∷◌,
  Float64, pos_part,
}
use fortify.Ferrors
use fortify.Ferrors.{Error, Sentinel, is, err_circuit_open}
use fortify.Retry.Config.{Config, set_defaults}
use fortify.Retry.Backoff.{calculate_backoff}

-- The loops over the lists: errors.Is against each entry.
unfoldable pub matches : Error → List Sentinel → Bool
matches e [] = false
matches e (t ∷ ts) = if is e t then true else matches e ts

-- What attempt number i meets: the context before it, the result of fn, how the wait after it ends
-- (none: the timer fires; some: the context's error), and the random draw for the jitter.
pub record Attempt ⦃fl : Float64⦄ (T : Type 0) : Type 0 where
  pub ctx_err : Option Error
  pub result : T × Option Error
  pub interrupted : Option Error
  pub random : fl.F

-- What Execute returns, how often it called fn, and the delays that it waited for.
pub record Outcome (T : Type 0) : Type 0 where
  pub value : T
  pub err : Option Error
  pub calls : ℕ
  pub delays : List ℕ

module _ ⦃fl : Float64⦄ where
  -- isRetryable at a non-nil error.
  unfoldable pub is_retryable : Config → Error → Bool
  unfolding matches
  is_retryable c e = elim c.is_retryable [
    | some f ↦ f e
    | none ↦ if matches e c.non_retryable_errors then false else elim c.retryable_errors [
      | t ∷ ts ↦ matches e (t ∷ ts)
      | [] ↦
          if Ferrors.is_retryable (some e)
          then true
          else if is e err_circuit_open
          then false
          else true
    ]
  ]

  unfoldable pub delay_after : Config → ℕ → fl.F → ℕ
  delay_after c attempt random =
      calculate_backoff c.backoff_policy attempt (pos_part c.initial_delay) (pos_part c.max_delay)
        c.multiplier c.jitter random

  module _ {T : Type 0} where
    abbrev return : T → Option Error → ℕ → List ℕ → Outcome T
    return value err calls delays = record {
      value = value;
      err = err;
      calls = calls;
      delays = delays;
    }

    -- The loop from `attempt` on, with `left` rounds to go and the result of the round before.
    unfoldable pub loop : Config → (ℕ → Attempt T) → ℕ → ℕ → T × Option Error → Outcome T
    unfolding delay_after
    loop c world zero attempt (value, err) = return value err 0 []
    loop c world (suc left) attempt (value, err) =
        let now = world attempt in
        elim now.ctx_err [
          | some ce ↦ return value (some ce) 0 []
          | none ↦ elim now.result.1 [
            | none ↦ return now.result.0 none 1 []
            | some e ↦
                let again = loop c world left (suc attempt) now.result in
                let delay = delay_after c attempt now.random in
                if not (is_retryable c e)
                then return now.result.0 (some e) 1 []
                else if attempt == pos_part c.max_attempts
                then return now.result.0 (some e) 1 []
                else elim now.interrupted [
                  | some ce ↦ return now.result.0 (some ce) 1 (delay ∷ [])
                  | none ↦ record again { calls = again.calls + 1; delays = delay ∷ again.delays }
                ]
          ]
        ]

    -- New and Execute.
    unfoldable pub execute : Config → T → (ℕ → Attempt T) → Outcome T
    unfolding loop
    execute config zero_value world =
        let c = set_defaults config in loop c world (pos_part c.max_attempts) 1 (zero_value, none)
