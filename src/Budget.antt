-- ===== src/Budget.antt =====
-- Package budget (budget.go): cost ceilings over the calls of an operation.
pub mod Defs
pub mod Calls
pub mod Spending
pub mod Window
