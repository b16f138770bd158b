-- ===== src/Examples.antt =====
-- Concrete runs of the models, with a float64 of exact fractions.
mod Ratio
mod BreakerCases
mod WindowCases
mod RetryCases
mod BudgetCases
mod AdaptiveCases
mod RateCases
mod BulkheadCases
mod HedgeCases
mod ChainCases
mod PresetCases
mod StreamCases
mod HttpCases
mod CostCases
mod HandlerCases
