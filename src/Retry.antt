-- ===== src/Retry.antt =====
-- Package retry: configuration (config.go), backoff (backoff.go) and the retry loop (retry.go).
pub mod Config
pub mod Backoff
pub mod Loop
pub mod Attempts
pub mod Classification
pub mod Delays
