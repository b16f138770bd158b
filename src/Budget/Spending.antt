-- ===== src/Budget/Spending.antt =====
-- What one goroutine's calls of Execute (budget/budget.go) do to the budget.
use fortify.Base.{
  ℕ, ◌+◌, ◌<◌, ◌≡◌, refl, sym, subst, Bool, true, false, not, ◌||◌, inl, inr, Option, none, some,
  arith, ℤ, pos, add_int64, add_int64_exact, ltb, ◌&&◌, pos_part, negsuc, if◌then◌else◌, Bool-cases,
}
use fortify.Ferrors.{Error}
use fortify.Budget.Defs.{
  Cost, Budget, BudgetError, budget_exceeded_error, operation_error, snapshot, execute_lock_free,
  Others, Executed, cost_of, passes, execute_windowed, in_window, auto_reset_locked, begin_windowed,
  end_windowed, pre_charge, charge_tokens, charge_usd, settle, finished, refused, exceeded_error,
}

-- No other goroutine uses the budget.
abbrev pub alone : (T : Type 0) → Others T
alone T = record {
  before_call = λ b. b;
  running = λ b. b;
  between = λ b. b;
  before_settle = λ b. b;
}

-- The specification: what is spent so far, and whether a ceiling has been passed.
pub record Ledger : Type 0 where
  pub tokens : ℕ
  pub usd : ℕ
  pub calls : ℕ
  pub closed : Bool

-- The amount is above the ceiling, if there is one.
abbrev pub above : ℤ → ℕ → Bool
above (pos m) n = ltb 0 m && ltb m n
above (negsuc m) n = false

-- One call: whether it runs, and the ledger after it. Negative costs count as nothing.
abbrev pub account : Cost → Cost → Ledger → Ledger × Bool
account max cost l =
    let tokens' = l.tokens + pos_part cost.tokens in
    let usd' = l.usd + pos_part cost.usd_micros in
    if l.closed
    then (l, false)
    else if above max.calls (l.calls + 1)
    then (record l { calls = l.calls + 1; closed = true }, false)
    else (
      record {
        tokens = tokens';
        usd = usd';
        calls = l.calls + 1;
        closed = above max.tokens tokens' || above max.usd_micros usd';
      },
      true,
    )

module _ {T : Type 0} where
  pub record Agrees (l : Ledger) (b : Budget T) : Type 0 where
    pub tokens : b.tokens ≡ pos l.tokens
    pub usd : b.usd_micros ≡ pos l.usd
    pub calls : b.calls ≡ pos l.calls
    pub closed : b.breached ≡ l.closed

  kept_cfg :
      (cost : Cost) (b : Budget T)
      → ((pre_charge b).0.cfg ≡ b.cfg) × ((charge_usd cost (charge_tokens cost b)).cfg ≡ b.cfg)
  unfolding pre_charge charge_usd charge_tokens
  kept_cfg cost b = (ground arith, ground arith)

  auto_reset_in_window :
      (now : ℕ) (b : Budget T)
      → b.window_open ≡ true
      → in_window now b ≡ true
      → auto_reset_locked now b ≡ b
  unfolding auto_reset_locked
  auto_reset_in_window now b o w = ground arith

  -- Before the end of an open window, the windowed path of Execute does what the lock-free path
  -- does, if no other goroutine uses the budget.
  paths_agree :
      (now : ℕ) (zero_value : T) (result : T × Option Error) (b : Budget T)
      → b.window_open ≡ true
      → in_window now b ≡ true
      → execute_windowed now zero_value result (alone T) b
        ≡ execute_lock_free zero_value result (alone T) b
  unfolding execute_windowed begin_windowed end_windowed execute_lock_free
  paths_agree now zero_value result b o w =
      ground (arith, auto_reset_in_window now b o w, kept_cfg (cost_of b.cfg result) b)

  pre_charge-Agrees :
      (l : Ledger) (b : Budget T)
      → Agrees l b
      → l.closed ≡ false
      → l.calls + 1 < 9223372036854775808
      → let no = above b.cfg.max.calls (l.calls + 1) in
        Agrees (record l { calls = l.calls + 1; closed = no }) (pre_charge b).0
        × ((pre_charge b).1 ≡ not no)
  unfolding pre_charge
  pre_charge-Agrees l b a c h =
      ground (arith, a.tokens, a.usd, a.calls, a.closed, add_int64_exact l.calls 1)

  charge-Agrees :
      (cost : Cost) (l : Ledger) (b : Budget T)
      → Agrees l b
      → l.tokens + pos_part cost.tokens < 9223372036854775808
      → l.usd + pos_part cost.usd_micros < 9223372036854775808
      → Agrees
          (record l {
            tokens = l.tokens + pos_part cost.tokens;
            usd = l.usd + pos_part cost.usd_micros;
          })
          (charge_usd cost (charge_tokens cost b))
  unfolding charge_usd charge_tokens
  charge-Agrees cost l b a x y = ground (
    arith,
    a.tokens,
    a.usd,
    a.calls,
    a.closed,
    add_int64_exact l.tokens (pos_part cost.tokens),
    add_int64_exact l.usd (pos_part cost.usd_micros),
  )

  settle-Agrees :
      (l : Ledger) (b : Budget T)
      → Agrees l b
      → l.closed ≡ false
      → let max = b.cfg.max in
        let full =
          above max.tokens l.tokens || (above max.usd_micros l.usd || above max.calls l.calls) in
        Agrees (record l { closed = full }) (settle b).0
        × ((settle b).1 ≡ (if full then some (snapshot (settle b).0) else none))
  unfolding settle
  settle-Agrees l b a c = ground (arith, a.tokens, a.usd, a.calls, a.closed)

  -- What Execute reports for a result: the operation's error, or the excess by the ledger.
  abbrev pub reported : Bool → T × Option Error → Budget T → Option BudgetError
  reported true result b = some (budget_exceeded_error (snapshot b) b.cfg.max)
  reported false result b = operation_error result.1

  -- Execute against the specification: the counters, whether fn ran, and the value and error.
  pub record Meets (zero_value : T) (result : T × Option Error) (spec : Ledger × Bool)
      (out : Executed T) : Type 0 where
    pub agrees : Agrees spec.0 out.budget
    pub ran : out.ran ≡ spec.1
    pub value : out.value ≡ (if spec.1 then result.0 else zero_value)
    pub err : out.err ≡ reported spec.0.closed result out.budget

  finished-Meets :
      (zero_value : T) (result : T × Option Error) (l : Ledger) (s : Budget T × Option Cost)
      → Agrees l s.0
      → s.1 ≡ (if l.closed then some (snapshot s.0) else none)
      → Meets zero_value result (l, true) (finished result s)
  unfolding finished exceeded_error
  finished-Meets zero_value result l (b', none) a e = record {
    agrees = a;
    ran = refl;
    value = refl;
    err = ground arith;
  }
  finished-Meets zero_value result l (b', some c) a e = record {
    agrees = a;
    ran = refl;
    value = refl;
    err = ground arith;
  }

  refused-Meets :
      (zero_value : T) (result : T × Option Error) (l : Ledger) (b : Budget T)
      → Agrees l b
      → l.closed ≡ true
      → Meets zero_value result (l, false) (refused zero_value b)
  unfolding refused exceeded_error
  refused-Meets zero_value result l b a c = record {
    agrees = a;
    ran = refl;
    value = refl;
    err = rw c;
  }

  finished-ran :
      (result : T × Option Error) (s : Budget T × Option Cost) → (finished result s).ran ≡ true
  unfolding finished
  finished-ran result (b, none) = refl
  finished-ran result (b, some c) = refl

  Meets-eq :
      (zero_value : T) (result : T × Option Error) {s s' : Ledger × Bool} {o o' : Executed T}
      → s ≡ s'
      → o ≡ o'
      → Meets zero_value result s' o'
      → Meets zero_value result s o
  Meets-eq zero_value result {s' = s'} {o = o} p q m =
      subst (λ x. Meets zero_value result x o) (sym p)
        (subst (λ x. Meets zero_value result s' x) (sym q) m)

  -- One call of Execute on the lock-free path, by the only goroutine on the budget and with sums
  -- below 2^63, follows the ledger: it runs fn unless a ceiling has been passed before or this call
  -- is one too many, it adds the positive costs, it closes the budget when a sum is above its
  -- ceiling, and it returns fn's result if it ran and the zero value if not, with
  -- BudgetExceededError exactly when the budget is closed after it.
  pub execute-Meets :
      (zero_value : T) (result : T × Option Error) (l : Ledger) (b : Budget T)
      → Agrees l b
      → l.tokens + pos_part (cost_of b.cfg result).tokens < 9223372036854775808
      → l.usd + pos_part (cost_of b.cfg result).usd_micros < 9223372036854775808
      → l.calls + 1 < 9223372036854775808
      → Meets zero_value result
          (account b.cfg.max (cost_of b.cfg result) l)
          (execute_lock_free zero_value result (alone T) b)
  unfolding execute_lock_free
  execute-Meets zero_value result l b a x y z =
      let cost = cost_of b.cfg result in
      let no = above b.cfg.max.calls (l.calls + 1) in
      let b1 = (pre_charge b).0 in
      let l1 : Ledger = record l { calls = l.calls + 1; closed = no } in
      elim (Bool-cases l.closed) [
        | inl y' ↦
            Meets-eq zero_value result {s' = (l, false)} {o' = refused zero_value b} (ground arith)
              (ground (arith, a.closed)) (refused-Meets zero_value result l b a y')
        | inr n ↦
            let (p, q) = pre_charge-Agrees l b a n z in
            elim (Bool-cases no) [
              | inl many ↦
                  Meets-eq zero_value result {s' = (l1, false)} {o' = refused zero_value b1}
                    (ground arith) (ground (arith, a.closed, q))
                    (refused-Meets zero_value result l1 b1 p many)
              | inr few ↦
                  let l2 : Ledger = record l1 {
                    tokens = l.tokens + pos_part cost.tokens;
                    usd = l.usd + pos_part cost.usd_micros;
                  } in
                  let b2 = charge_usd cost (charge_tokens cost b1) in
                  let charged = charge-Agrees cost l1 b1 p x y in
                  let (r, e) = settle-Agrees l2 b2 charged few in
                  Meets-eq zero_value result {o' = finished result (settle b2)}
                    (ground (arith, kept_cfg cost b, kept_cfg cost b1))
                    (ground (arith, a.closed, q))
                    (finished-Meets zero_value result _ (settle b2) r e)
            ]
      ]

  -- On a budget that is not breached, with as many tokens consumed as MaxTokens allows, the next
  -- call on the lock-free path still runs, if it does not pass the maximum of calls.
  ceiling_reached_runs :
      (zero_value : T) (result : T × Option Error) (b : Budget T)
      → b.breached ≡ false
      → b.tokens ≡ b.cfg.max.tokens
      → passes b.cfg.max.calls (add_int64 b.calls (pos 1)) ≡ false
      → (execute_lock_free zero_value result (alone T) b).ran ≡ true
  unfolding execute_lock_free pre_charge
  ceiling_reached_runs zero_value result b f t c = ground (
    arith,
    finished-ran result (
        settle (
          charge_usd (cost_of b.cfg result)
            (charge_tokens (cost_of b.cfg result) (pre_charge b).0))),
  )
