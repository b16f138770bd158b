-- ===== src/Http.antt =====
-- http/middleware.go.
pub mod Sanitize
pub mod Recorder
pub mod Handlers
pub mod Streaming
