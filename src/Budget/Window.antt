-- ===== src/Budget/Window.antt =====
-- The rolling window of budget/budget.go: the cap on calls within one window, and the fresh start
-- of the next one.
use fortify.Base.{
  ℕ, suc, ◌+◌, ◌-◌, ◌≤◌, ◌<◌, ◌≡◌, sym, subst, Bool, true, false, ◌⊎◌, inl, inr, Option, List, [],
  ◌∷◌, arith, pos, length, add_int64_exact, if◌then◌else◌,
}
use fortify.Ferrors.{Error}
use fortify.Budget.Defs.{
  Budget, pre_charge, charge_tokens, charge_usd, settle, begin_windowed, end_windowed,
  auto_reset_locked,
}

-- The critical sections of goroutines in Execute with a window.
pub data Section (T : Type 0) : Type 0 where
  begins : ℕ → Section T
  ends : T × Option Error → Section T

module _ {T : Type 0} where
  unfoldable pub enter : Section T → Budget T → Budget T × Bool
  enter (begins now) b = begin_windowed now b
  enter (ends result) b = ((end_windowed result b).0, false)

  -- How many calls the sections let run.
  unfoldable pub admitted : List (Section T) → Budget T → ℕ
  admitted [] b = 0
  admitted (s ∷ rest) b =
      let more = admitted rest (enter s b).0 in if (enter s b).1 then suc more else more

  -- The section begins a call before the end of the window of length n that opened at `start`.
  abbrev pub Within : ℕ → ℕ → List (Section T) → Type 0
  Within start n [] = Unit
  Within start n (begins now ∷ rest) = (now < start + n) × Within start n rest
  Within start n (ends result ∷ rest) = Within start n rest

  pub record Opened (m n k : ℕ) (b : Budget T) : Type 0 where
    pub cap : b.cfg.max.calls ≡ pos m
    pub span : b.cfg.reset_after ≡ pos n
    pub is_open : b.window_open ≡ true
    pub counted : b.calls ≡ pos k

  begins-Opened :
      (m n k now : ℕ) (b : Budget T)
      → 0 < m
      → Opened m n k b
      → now < b.window_start + n
      → k + 1 < 9223372036854775808
      → let (b', ran) = begin_windowed now b in
        (b'.window_start ≡ b.window_start)
        × (((ran ≡ false) × Opened m n k b')
            ⊎ ((ran ≡ false) × Opened m n (k + 1) b' × (m ≤ k))
            ⊎ ((ran ≡ true) × Opened m n (k + 1) b' × (k < m)))
  unfolding begin_windowed auto_reset_locked pre_charge
  begins-Opened m n k now b h o w l = ground (arith, add_int64_exact k 1)

  ends-Opened :
      (m n k : ℕ) (result : T × Option Error) (b : Budget T)
      → Opened m n k b
      → let b' = (end_windowed result b).0 in (b'.window_start ≡ b.window_start) × Opened m n k b'
  unfolding end_windowed charge_tokens charge_usd settle
  ends-Opened m n k result b o = ground arith

  -- While an open window of a budget with a positive cap of m calls lasts, and k calls are counted
  -- in it, the critical sections of all goroutines let m - k more calls run at most, in whatever
  -- order they come, if the counter stays below 2^63.
  window_calls_capped :
      (m n k : ℕ) (sections : List (Section T)) (b : Budget T)
      → 0 < m
      → Opened m n k b
      → Within b.window_start n sections
      → k + length sections < 9223372036854775808
      → admitted sections b ≤ m - k
  unfolding admitted enter
  window_calls_capped m n k [] b h o w l = omega arith
  window_calls_capped m n k (begins now ∷ rest) b h o w l =
      let (s, cases) = begins-Opened m n k now b h o w.0 (omega arith) in
      let b' = (begin_windowed now b).0 in
      let w' = subst (λ x. Within x n rest) (sym s) w.1 in
      elim cases [
        | inl (kept, o') ↦
            let ih = window_calls_capped m n k rest b' h o' w' (omega arith) in ground (arith, ih)
        | inr (inl (kept, o', c)) ↦
            let ih = window_calls_capped m n (k + 1) rest b' h o' w' (omega arith) in
            ground (arith, ih)
        | inr (inr (ran, o', c)) ↦
            let ih = window_calls_capped m n (k + 1) rest b' h o' w' (omega arith) in
            ground (arith, ih)
      ]
  window_calls_capped m n k (ends result ∷ rest) b h o w l =
      let (s, o') = ends-Opened m n k result b o in
      let b' = (end_windowed result b).0 in
      window_calls_capped m n k rest b' h o' (subst (λ x. Within x n rest) (sym s) w) (omega arith)

  -- When ResetAfter has passed since the window of a budget with a positive cap on calls opened, the
  -- next call runs and opens a new window, in which it is the only call counted, nothing is spent and
  -- nothing is breached, whatever was spent and breached in the old one.
  window_elapsed :
      (m n now : ℕ) (b : Budget T)
      → 0 < m
      → b.cfg.max.calls ≡ pos m
      → b.cfg.reset_after ≡ pos n
      → b.window_open ≡ true
      → b.window_start + n ≤ now
      → let (b', ran) = begin_windowed now b in
        (ran ≡ true)
        × (b'.breached ≡ false)
        × (b'.window_start ≡ now)
        × (b'.calls ≡ pos 1)
        × (b'.tokens ≡ pos 0)
        × (b'.usd_micros ≡ pos 0)
  unfolding begin_windowed auto_reset_locked pre_charge
  window_elapsed m n now b h c r o e = ground (arith, add_int64_exact 0 1)
