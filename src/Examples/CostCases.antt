-- ===== src/Examples/CostCases.antt =====
-- A budget in US dollars at work (costbudget.go).
use fortify.Base.{true, ltb, ℕ, ◌+◌, ◌*◌, ◌/◌, ◌≡◌, refl, false, Option, none, some, [], pos, arith}
use fortify.Ferrors.{Error}
use fortify.Budget.Defs.{Budget, execute_lock_free, new}
use fortify.Budget.Spending.{Ledger, Agrees, Meets, alone}
use fortify.CostBudget.{
  CostBudgetConfig, usd_to_micros, usd_cost, charge_of, cost_func_to_charge, cost_budget,
}
use fortify.CostBudget.Laws.{chargeable, nearest, spent_micros, dollar_call, cost_budget_ledger}
use fortify.Examples.Ratio.{ratio}

-- math.Round of a fraction that is not negative.
abbrev round : ℕ × ℕ → ℕ × ℕ
round (a, b) = ((2 * a + b) / (2 * b), 1)

-- A tenth of a dollar for each call.
abbrev cost_func : ℕ × Option Error → ℕ × ℕ
cost_func result = (1, 10)

-- Five dollars.
abbrev five : CostBudgetConfig ℕ
five = record { max_cost = (5, 1); cost_func = some cost_func; reset_after = pos 0 }

abbrev fresh : Budget ℕ
fresh = record {
  cfg = record {
    max = usd_cost 5000000;
    charge = some (charge_of round cost_func);
    on_exceeded = false;
    reset_after = pos 0;
  };
  tokens = pos 0;
  usd_micros = pos 0;
  calls = pos 0;
  breached = false;
  window_start = 0;
  window_open = false;
  notified = [];
}

abbrev result : ℕ × Option Error
result = (7, none)

abbrev empty : Ledger
empty = record { tokens = 0; usd = 0; calls = 0; closed = false }

fresh-Agrees : Agrees empty fresh
fresh-Agrees = record { tokens = refl; usd = refl; calls = refl; closed = refl }

-- A ceiling of 0.4 micro-USD is positive and finite and makes no budget.
tiny_ceiling : cost_budget round (record five { max_cost = (4, 10000000) }) ≡ none
unfolding cost_budget new
tiny_ceiling = refl

cost_budget_ledger_example :
    (chargeable five.max_cost ≡ true)
    × (ltb 0 (nearest round five.max_cost) ≡ true)
    × Meets 0 result
        (dollar_call (nearest round five.max_cost) (spent_micros round (cost_func result)) empty)
        (execute_lock_free 0 result (alone ℕ) fresh)
unfolding cost_budget new cost_func_to_charge usd_to_micros
cost_budget_ledger_example =
    cost_budget_ledger round five cost_func fresh fresh 0 result empty refl refl refl fresh-Agrees
      (omega arith) (omega arith) (omega arith)
