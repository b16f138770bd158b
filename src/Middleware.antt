-- ===== src/Middleware.antt =====
-- middleware/chain.go and middleware/presets.go.
pub mod Chain
pub mod Order
pub mod Presets
pub mod LlmHedge
pub mod Http
