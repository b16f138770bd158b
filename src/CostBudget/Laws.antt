-- ===== src/CostBudget/Laws.antt =====
-- The spending of a budget that WithCostBudget of costbudget.go made.
use fortify.Base.{
  ◌⊎◌, inl, inr, not, ◌&&◌, if◌then◌else◌, false, Bool, ℕ, ◌+◌, ◌<◌, ◌≡◌, refl, ◌∙◌, ap, subst,
  Bool, true, false, if◌then◌else◌, ltb, Option, none, some, Float64, arith,
}
use fortify.Ferrors.{Error}
use fortify.Budget.Defs.{Cost, Config, Budget, new, cost_of, execute_lock_free}
use fortify.Budget.Spending.{Ledger, Agrees, Meets, account, alone, execute-Meets}
use fortify.CostBudget.{
  CostBudgetConfig, usd_to_micros, usd_cost, charge_of, cost_func_to_charge, cost_budget,
}

abbrev pub or_zero : Option ℕ → ℕ
or_zero none = 0
or_zero (some k) = k

-- The ledger of a cost budget: a call that costs `k` micro-USD runs unless an earlier one has passed the
-- ceiling.
abbrev pub dollar_call : ℕ → ℕ → Ledger → Ledger × Bool
dollar_call ceiling k l =
    if l.closed
    then (l, false)
    else (record l { usd = l.usd + k; calls = l.calls + 1; closed = ltb ceiling (l.usd + k) }, true)

account_dollars :
    (ceiling k : ℕ) (l : Ledger) (max cost : Cost)
    → ltb 0 ceiling ≡ true
    → max ≡ usd_cost ceiling
    → cost ≡ usd_cost k
    → account max cost l ≡ dollar_call ceiling k l
account_dollars ceiling k l max cost hc hm hk = ground (arith, hc, hm, hk)

module _ ⦃fl : Float64⦄ where
  -- A finite positive number of dollars that is below 2^63 micro-USD.
  abbrev pub chargeable : fl.F → Bool
  chargeable usd =
      not (fl.is_nan usd)
      && (not (fl.is_inf usd)
          && (not (fl.fleb usd (fl.of_nat 0))
              && not (fl.fleb (fl.of_nat 9223372036854775808) (fl.fmul usd (fl.of_nat 1000000)))))

  -- The nearest micro-USD.
  abbrev pub nearest : (fl.F → fl.F) → fl.F → ℕ
  nearest round usd = fl.trunc (round (fl.fmul usd (fl.of_nat 1000000)))

  abbrev pub spent_micros : (fl.F → fl.F) → fl.F → ℕ
  spent_micros round usd = if chargeable usd then nearest round usd else 0

  or_zero-usd_to_micros :
      (round : fl.F → fl.F) (usd : fl.F)
      → or_zero (usd_to_micros round usd) ≡ spent_micros round usd
  unfolding usd_to_micros
  or_zero-usd_to_micros round usd = ground arith

  usd_to_micros_cases :
      (round : fl.F → fl.F) (usd : fl.F)
      → ((chargeable usd ≡ true) × (usd_to_micros round usd ≡ some (nearest round usd)))
        ⊎ (usd_to_micros round usd ≡ none)
  unfolding usd_to_micros
  usd_to_micros_cases round usd = ground arith

impossible : {T : Type 0} {b : Budget T} → none ≡ some b → ⊥
impossible h = ground (arith, h)

module _ ⦃fl : Float64⦄ {T : Type 0} where
  abbrev config_of : (fl.F → fl.F) → CostBudgetConfig T → ℕ → Config T
  config_of round cfg ceiling = record {
    max = usd_cost ceiling;
    charge = cost_func_to_charge round cfg.cost_func;
    on_exceeded = false;
    reset_after = cfg.reset_after;
  }

  new-cfg : (c : Config T) (b : Budget T) → new c ≡ some b → b.cfg ≡ c
  unfolding new
  new-cfg c b h = ground (arith, h)

  new_ceiling :
      (c : Config T) (b : Budget T) (ceiling : ℕ)
      → c.max ≡ usd_cost ceiling
      → new c ≡ some b
      → ltb 0 ceiling ≡ true
  unfolding new
  new_ceiling c b ceiling m h = ground (arith, m, h)

  abbrev made_of : (fl.F → fl.F) → CostBudgetConfig T → Option ℕ → Option (Budget T)
  made_of round cfg none = none
  made_of round cfg (some ceiling) = new (config_of round cfg ceiling)

  cost_budget-made :
      (round : fl.F → fl.F) (cfg : CostBudgetConfig T) (b : Budget T) (ceiling : ℕ)
      → usd_to_micros round cfg.max_cost ≡ some ceiling
      → cost_budget round cfg ≡ some b
      → new (config_of round cfg ceiling) ≡ some b
  unfolding cost_budget
  cost_budget-made round cfg b ceiling good h = subst (λ o. made_of round cfg o ≡ some b) good h

  charge_of-cost :
      (round : fl.F → fl.F) (cost_func : T × Option Error → fl.F) (result : T × Option Error)
      → charge_of round cost_func result
        ≡ usd_cost (or_zero (usd_to_micros round (cost_func result)))
  unfolding charge_of
  charge_of-cost round cost_func result = ground arith

  made_ceiling :
      (round : fl.F → fl.F) (cfg : CostBudgetConfig T) (made : Budget T)
      → cost_budget round cfg ≡ some made
      → (chargeable cfg.max_cost ≡ true)
        × (usd_to_micros round cfg.max_cost ≡ some (nearest round cfg.max_cost))
  unfolding cost_budget
  made_ceiling round cfg made h = elim (usd_to_micros_cases round cfg.max_cost) [
    | inl good ↦ good
    | inr bad ↦
        let nothing : none ≡ some made = subst (λ o. made_of round cfg o ≡ some made) bad h in
        elim (impossible nothing) [ ]
  ]

  -- When WithCostBudget makes a budget, MaxCost is finite, positive and in range, and it is one micro-USD
  -- at least after rounding. A call through that budget, without ResetAfter, by the only goroutine on it
  -- and with sums below 2^63, follows the ledger in micro-USD that adds the rounded cost which CostFunc
  -- gives for the result, or nothing when that is NaN, infinite, not positive or not below 2^63
  -- micro-USD, and that refuses every call once the sum has passed MaxCost.
  pub cost_budget_ledger :
      (round : fl.F → fl.F) (cfg : CostBudgetConfig T) (cost_func : T × Option Error → fl.F)
      (made b : Budget T) (zero_value : T) (result : T × Option Error) (l : Ledger)
      → cfg.cost_func ≡ some cost_func
      → cost_budget round cfg ≡ some made
      → b.cfg ≡ made.cfg
      → Agrees l b
      → l.tokens < 9223372036854775808
      → l.usd + spent_micros round (cost_func result) < 9223372036854775808
      → l.calls + 1 < 9223372036854775808
      → (chargeable cfg.max_cost ≡ true)
        × (ltb 0 (nearest round cfg.max_cost) ≡ true)
        × Meets zero_value result
            (dollar_call (nearest round cfg.max_cost) (spent_micros round (cost_func result)) l)
            (execute_lock_free zero_value result (alone T) b)
  unfolding cost_func_to_charge cost_of
  cost_budget_ledger round cfg cost_func made b zero_value result l hf hm hb a x y z =
      let ceiling = nearest round cfg.max_cost in
      let (good, hc) = made_ceiling round cfg made hm in
      let k = spent_micros round (cost_func result) in
      let config = config_of round cfg ceiling in
      let new_made = cost_budget-made round cfg made ceiling hc hm in
      let cfg_eq : b.cfg ≡ config = hb ∙ new-cfg config made new_made in
      let max_eq : b.cfg.max ≡ usd_cost ceiling = ap (λ c. c.max) cfg_eq in
      let charge_eq : b.cfg.charge ≡ some (charge_of round cost_func) =
        ap (λ c. c.charge) cfg_eq ∙ ap (cost_func_to_charge round) hf in
      let cost_eq : cost_of b.cfg result ≡ usd_cost k = rw charge_eq (
        charge_of-cost round cost_func result
        ∙ ap usd_cost (or_zero-usd_to_micros round (cost_func result))) in
      let some_pos = new_ceiling config made ceiling refl new_made in
      (
        good,
        some_pos,
        subst
            (λ spec. Meets zero_value result spec (execute_lock_free zero_value result (alone T) b))
            (account_dollars ceiling k l b.cfg.max (cost_of b.cfg result) some_pos max_eq cost_eq)
            (execute-Meets zero_value result l b a (rw cost_eq (omega (arith, x))) (rw cost_eq y)
              z),
      )
