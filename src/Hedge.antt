-- ===== src/Hedge.antt =====
-- hedge/.
pub mod Defs
pub mod Laws
pub mod Race
