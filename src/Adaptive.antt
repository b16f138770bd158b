-- ===== src/Adaptive.antt =====
-- Package adaptive: configuration (config.go) and the adaptive concurrency limiter (adaptive.go).
pub mod Config
pub mod Limiter
pub mod Bounds
pub mod Traces
pub mod Aimd
