-- ===== src/Budget/Calls.antt =====
-- The cap on calls of budget/budget.go under any interleaving, and the single notice of a breach.
use fortify.Base.{
  ℕ, suc, ◌+◌, ◌-◌, ◌≤◌, ◌<◌, ◌≡◌, Bool, true, false, ◌⊎◌, List, [], ◌∷◌, arith, pos, min, length,
  add_int64_exact, if◌then◌else◌,
}
use fortify.Budget.Defs.{Cost, Budget, pre_charge, charge_tokens, charge_usd, settle}

-- The atomic steps of goroutines in Execute without a window.
pub data Step : Type 0 where
  pre : Step
  tokens usd : Cost → Step
  settles : Step

abbrev pub pres : List Step → ℕ
pres [] = 0
pres (pre ∷ steps) = suc (pres steps)
pres (tokens c ∷ steps) = pres steps
pres (usd c ∷ steps) = pres steps
pres (settles ∷ steps) = pres steps

module _ {T : Type 0} where
  unfoldable pub take_step : Step → Budget T → Budget T × Bool
  take_step pre b = pre_charge b
  take_step (tokens c) b = (charge_tokens c b, false)
  take_step (usd c) b = (charge_usd c b, false)
  take_step settles b = ((settle b).0, false)

  unfoldable pub run : List Step → Budget T → Budget T
  run [] b = b
  run (s ∷ steps) b = run steps (take_step s b).0

  -- How many calls the steps let run.
  unfoldable pub admitted : List Step → Budget T → ℕ
  admitted [] b = 0
  admitted (s ∷ steps) b =
      let rest = admitted steps (take_step s b).0 in if (take_step s b).1 then suc rest else rest

  admitted-eq :
      (m k : ℕ) (steps : List Step) (b : Budget T)
      → 0 < m
      → b.cfg.max.calls ≡ pos m
      → b.calls ≡ pos k
      → k + length steps < 9223372036854775808
      → admitted steps b ≡ min (m - k) (pres steps)
  unfolding admitted take_step charge_tokens charge_usd settle pre_charge
  admitted-eq m k [] b h e c l = omega arith
  admitted-eq m k (pre ∷ steps) b h e c l =
      ground (arith, add_int64_exact k 1, admitted-eq m (k + 1) steps (pre_charge b).0 h)
  admitted-eq m k (tokens x ∷ steps) b h e c l =
      admitted-eq m k steps (charge_tokens x b) h (ground arith) (ground arith) (omega arith)
  admitted-eq m k (usd x ∷ steps) b h e c l =
      admitted-eq m k steps (charge_usd x b) h (ground arith) (ground arith) (omega arith)
  admitted-eq m k (settles ∷ steps) b h e c l =
      admitted-eq m k steps (settle b).0 h (ground arith) (ground arith) (omega arith)

  -- A budget without a window, with a positive cap of m calls and no call counted, lets exactly
  -- min(m, n) of n calls that have found it not breached run, however the atomic steps of their
  -- goroutines interleave, if there are fewer steps than 2^63.
  pub calls_capped :
      (m : ℕ) (steps : List Step) (b : Budget T)
      → 0 < m
      → b.cfg.max.calls ≡ pos m
      → b.calls ≡ pos 0
      → length steps < 9223372036854775808
      → admitted steps b ≡ min m (pres steps)
  calls_capped m steps b h e c l = omega (arith, admitted-eq m 0 steps b h e c (omega arith))

  -- OnExceeded has been called once at most, and not at all unless the flag is set.
  pub record Notices (b : Budget T) : Type 0 where
    pub unset : (b.breached ≡ true) ⊎ (length b.notified ≡ 0)
    pub once : length b.notified ≤ 1

  step-Notices : (s : Step) (b : Budget T) → Notices b → Notices (take_step s b).0
  unfolding take_step charge_tokens charge_usd settle pre_charge
  step-Notices pre b n = ground arith
  step-Notices (tokens c) b n = ground arith
  step-Notices (usd c) b n = ground arith
  step-Notices settles b n = ground arith

  -- Whatever the interleaving of the steps of Execute without a window, OnExceeded is called once at
  -- most, and not at all unless the flag is set, if that holds before the steps.
  run-Notices : (steps : List Step) (b : Budget T) → Notices b → Notices (run steps b)
  unfolding run
  run-Notices [] b n = n
  run-Notices (s ∷ steps) b n = run-Notices steps (take_step s b).0 (step-Notices s b n)
