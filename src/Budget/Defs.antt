-- ===== src/Budget/Defs.antt =====
-- budget/budget.go. The counters are int64 and atomic; a function of this file whose comment names
-- one atomic operation, or one critical section of windowMu, is one step among the goroutines.
use fortify.Base.{
  ℕ, ◌+◌, Bool, true, false, not, ◌&&◌, ◌||◌, if◌then◌else◌, ltb, Option, none, some, List, [], ◌∷◌,
  ℤ, pos, is_pos, ltb_ℤ, pos_part, neg_part, add_int64,
}
use fortify.Ferrors.{Error, sentinel, wrapped, err_budget_exceeded}

pub record Cost : Type 0 where
  pub tokens : ℤ
  pub usd_micros : ℤ
  pub calls : ℤ

abbrev pub zero_cost : Cost
zero_cost = record { tokens = pos 0; usd_micros = pos 0; calls = pos 0 }

-- Cost.Add
unfoldable pub add : Cost → Cost → Cost
add c o = record {
  tokens = add_int64 c.tokens o.tokens;
  usd_micros = add_int64 c.usd_micros o.usd_micros;
  calls = add_int64 c.calls o.calls;
}

-- `charge` is the callback Charge, which may be nil; `on_exceeded` says whether that callback is
-- set. The Clock is the argument `now` of the steps that read it.
pub record Config (T : Type 0) : Type 0 where
  pub max : Cost
  pub charge : Option (T × Option Error → Cost)
  pub on_exceeded : Bool
  pub reset_after : ℤ

-- `notified` holds the costs that OnExceeded has been called with, newest first.
pub record Budget (T : Type 0) : Type 0 where
  pub cfg : Config T
  pub tokens : ℤ
  pub usd_micros : ℤ
  pub calls : ℤ
  pub breached : Bool
  pub window_start : ℕ
  pub window_open : Bool
  pub notified : List Cost

-- The errors of Execute: the operation's, or *BudgetExceededError.
pub data BudgetError : Type 0 where
  operation : Error → BudgetError
  budget_exceeded_error : Cost → Cost → BudgetError

-- The error as errors.Is sees it: *BudgetExceededError unwraps to ErrBudgetExceeded.
unfoldable pub as_error : BudgetError → Error
as_error (operation e) = e
as_error (budget_exceeded_error consumed max) = wrapped (sentinel err_budget_exceeded)

-- c > max, where max is positive.
unfoldable pub passes : ℤ → ℤ → Bool
passes max c = is_pos max && ltb_ℤ max c

unfoldable pub operation_error : Option Error → Option BudgetError
operation_error none = none
operation_error (some e) = some (operation e)

-- What Execute returns, and whether it ran fn.
pub record Executed (T : Type 0) : Type 0 where
  pub budget : Budget T
  pub value : T
  pub err : Option BudgetError
  pub ran : Bool

-- The steps that other goroutines make between those of one Execute.
pub record Others (T : Type 0) : Type 0 where
  pub before_call : Budget T → Budget T
  pub running : Budget T → Budget T
  pub between : Budget T → Budget T
  pub before_settle : Budget T → Budget T

module _ {T : Type 0} where
  -- New: none is the error that it returns for a Max without a positive field.
  unfoldable pub new : Config T → Option (Budget T)
  new cfg =
      if not (is_pos cfg.max.tokens)
        && (not (is_pos cfg.max.usd_micros) && not (is_pos cfg.max.calls))
      then none
      else some (record {
        cfg = cfg;
        tokens = pos 0;
        usd_micros = pos 0;
        calls = pos 0;
        breached = false;
        window_start = 0;
        window_open = false;
        notified = [];
      })

  unfoldable pub snapshot : Budget T → Cost
  snapshot b = record { tokens = b.tokens; usd_micros = b.usd_micros; calls = b.calls }

  unfoldable pub over : Budget T → Cost → Bool
  unfolding passes
  over b c =
      passes b.cfg.max.tokens c.tokens
      || (passes b.cfg.max.usd_micros c.usd_micros || passes b.cfg.max.calls c.calls)

  -- markBreach, and markBreachLocked with the fireOnExceeded that follows it: the callback runs if
  -- the flag was not set.
  unfoldable pub mark_breach : Budget T → Budget T
  unfolding snapshot
  mark_breach b = if b.breached then b else record b {
    breached = true;
    notified = if b.cfg.on_exceeded then snapshot b ∷ b.notified else b.notified;
  }

  unfoldable pub exceeded_error : Budget T → Cost → BudgetError
  exceeded_error b c = budget_exceeded_error c b.cfg.max

  -- `calls := b.calls.Add(1)` and the test of the cap: whether the call may run.
  unfoldable pub pre_charge : Budget T → Budget T × Bool
  unfolding mark_breach passes
  pre_charge b =
      let b' = record b { calls = add_int64 b.calls (pos 1) } in
      if passes b.cfg.max.calls b'.calls then (mark_breach b', false) else (b', true)

  -- `b.tokens.Add(c.Tokens)` and `b.usdMicros.Add(c.USDMicros)`, each under its test.
  unfoldable pub charge_tokens : Cost → Budget T → Budget T
  charge_tokens c b =
      if is_pos c.tokens then record b { tokens = add_int64 b.tokens c.tokens } else b

  unfoldable pub charge_usd : Cost → Budget T → Budget T
  charge_usd c b =
      if is_pos c.usd_micros
      then record b { usd_micros = add_int64 b.usd_micros c.usd_micros }
      else b

  -- The snapshot at the end of Execute and, if it is over, the breach: the consumed cost then.
  unfoldable pub settle : Budget T → Budget T × Option Cost
  unfolding snapshot over mark_breach
  settle b =
      let consumed = snapshot b in
      if over b consumed then (mark_breach b, some consumed) else (b, none)

  unfoldable pub clear : Budget T → Budget T
  clear b = record b { tokens = pos 0; usd_micros = pos 0; calls = pos 0; breached = false }

  unfoldable pub reset : Budget T → Budget T
  unfolding clear
  reset b = if is_pos b.cfg.reset_after then record (clear b) { window_open = false } else clear b

  -- now.Sub(b.windowStart) < b.cfg.ResetAfter
  unfoldable pub in_window : ℕ → Budget T → Bool
  in_window now b =
      ltb (now + neg_part b.cfg.reset_after) (b.window_start + pos_part b.cfg.reset_after)

  unfoldable pub auto_reset_locked : ℕ → Budget T → Budget T
  unfolding clear in_window
  auto_reset_locked now b =
      if not b.window_open
      then record b { window_start = now; window_open = true }
      else if in_window now b
      then b
      else record (clear b) { window_start = now }

  -- The first critical section of executeWindowed: whether fn may run.
  unfoldable pub begin_windowed : ℕ → Budget T → Budget T × Bool
  begin_windowed now b =
      let b' = auto_reset_locked now b in if b'.breached then (b', false) else pre_charge b'

  -- The cost of a result, if Charge is set; a nil Charge adds nothing.
  unfoldable pub cost_of : Config T → T × Option Error → Cost
  cost_of cfg result = elim cfg.charge [ none ↦ zero_cost | some f ↦ f result ]

  -- The second critical section of executeWindowed.
  unfoldable pub end_windowed : T × Option Error → Budget T → Budget T × Option Cost
  end_windowed result b = let c = cost_of b.cfg result in settle (charge_usd c (charge_tokens c b))

  -- The returns after fn has run.
  unfoldable pub finished : T × Option Error → Budget T × Option Cost → Executed T
  unfolding exceeded_error operation_error
  finished result (b, none) = record {
    budget = b;
    value = result.0;
    err = operation_error result.1;
    ran = true;
  }
  finished result (b, some consumed) = record {
    budget = b;
    value = result.0;
    err = some (exceeded_error b consumed);
    ran = true;
  }

  unfoldable pub refused : T → Budget T → Executed T
  unfolding exceeded_error snapshot
  refused zero_value b = record {
    budget = b;
    value = zero_value;
    err = some (exceeded_error b (snapshot b));
    ran = false;
  }

  unfoldable pub execute_lock_free : T → T × Option Error → Others T → Budget T → Executed T
  execute_lock_free zero_value result others b =
      if b.breached
      then refused zero_value b
      else let (counted, admitted) = pre_charge (others.before_call b) in
        if not admitted
        then refused zero_value counted
        else let c = cost_of b.cfg result in
          let charged = charge_tokens c (others.running counted) in
          let charged' = charge_usd c (others.between charged) in
          finished result (settle (others.before_settle charged'))

  unfoldable pub execute_windowed : ℕ → T → T × Option Error → Others T → Budget T → Executed T
  execute_windowed now zero_value result others b =
      let (begun, admitted) = begin_windowed now b in
      if admitted
      then finished result (end_windowed result (others.running begun))
      else refused zero_value begun

  unfoldable pub execute : ℕ → T → T × Option Error → Others T → Budget T → Executed T
  execute now zero_value result others b =
      if is_pos b.cfg.reset_after
      then execute_windowed now zero_value result others b
      else execute_lock_free zero_value result others b
