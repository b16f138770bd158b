-- ===== src/CostBudget.antt =====
-- costbudget.go and compose.go: the Composer, which is a chain, and the budget in US dollars. The Clock of
-- the budget is an argument of its steps, and a panic is none. `round` is math.Round.
pub mod Laws
use fortify.Base.{ℕ, false, ◌||◌, if◌then◌else◌, Option, none, some, ℤ, pos, Float64}
use fortify.Ferrors.{Error}
use fortify.Budget.Defs.{Cost, zero_cost, Config, Budget, new as new_budget}
use fortify.Middleware.Chain.{Chain, Component, with_budget}

abbrev pub usd_micros_per_usd : ℕ
usd_micros_per_usd = 1000000

abbrev pub usd_cost : ℕ → Cost
usd_cost micros = record zero_cost { usd_micros = pos micros }

module _ ⦃fl : Float64⦄ where
  pub record CostBudgetConfig (T : Type 0) : Type 0 where
    pub max_cost : fl.F
    pub cost_func : Option (T × Option Error → fl.F)
    pub reset_after : ℤ

  -- float64(math.MaxInt64) is 2^63.
  unfoldable pub usd_to_micros : (fl.F → fl.F) → fl.F → Option ℕ
  usd_to_micros round usd =
      if fl.is_nan usd || (fl.is_inf usd || fl.fleb usd (fl.of_nat 0))
      then none
      else let scaled = fl.fmul usd (fl.of_nat usd_micros_per_usd) in
        if fl.fleb (fl.of_nat 9223372036854775808) scaled
        then none
        else some (fl.trunc (round scaled))

  module _ {T : Type 0} where
    -- The charge for one result of the operation.
    unfoldable pub charge_of : (fl.F → fl.F) → (T × Option Error → fl.F) → T × Option Error → Cost
    unfolding usd_to_micros
    charge_of round cost_func result = elim (usd_to_micros round (cost_func result)) [
      | none ↦ zero_cost
      | some micros ↦ usd_cost micros
    ]

    unfoldable pub cost_func_to_charge :
        (fl.F → fl.F) → Option (T × Option Error → fl.F) → Option (T × Option Error → Cost)
    unfolding charge_of
    cost_func_to_charge round none = none
    cost_func_to_charge round (some cost_func) = some (charge_of round cost_func)

    -- The budget that WithCostBudget makes.
    unfoldable pub cost_budget : (fl.F → fl.F) → CostBudgetConfig T → Option (Budget T)
    unfolding usd_to_micros cost_func_to_charge
    cost_budget round cfg = elim (usd_to_micros round cfg.max_cost) [
      | none ↦ none
      | some micros ↦ new_budget (record {
        max = usd_cost micros;
        charge = cost_func_to_charge round cfg.cost_func;
        on_exceeded = false;
        reset_after = cfg.reset_after;
      })
    ]

module _ {World Ctx T : Type 0} where
  -- WithCostBudget on the chain of the Composer; `make` is what the chain calls of a budget.
  unfoldable pub with_cost_budget :
      ⦃fl : Float64⦄
      → (fl.F → fl.F)
      → (Budget T → Component World Ctx T)
      → CostBudgetConfig T
      → Chain World Ctx T
      → Option (Chain World Ctx T)
  unfolding cost_budget
  with_cost_budget round make cfg c = elim (cost_budget round cfg) [
    | none ↦ none
    | some b ↦ some (with_budget (make b) c)
  ]
