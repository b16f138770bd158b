-- ===== src/RateLimit.antt =====
-- Package ratelimit: the errors (errors.go), the configuration (config.go), the token bucket, the
-- limiter and the sanitising of keys (limiter.go), the store interface (store.go) and the store in
-- memory (memory.go).
pub mod LogKey
pub mod Errors
pub mod Config
pub mod Bucket
pub mod Store
pub mod Memory
pub mod Limiter
pub mod Wait
