-- ===== src/Grpc.antt =====
-- grpc/interceptor.go and grpc/client.go: the keys of the rate limiter, and the interceptors around a
-- handler or a call.
pub mod Sanitize
pub mod Interceptors
pub mod Client
