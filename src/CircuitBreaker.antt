-- ===== src/CircuitBreaker.antt =====
-- Package circuitbreaker: counters (state.go), trip predicates (predicates.go), sliding windows
-- (window.go), configuration (config.go) and the state machine (breaker.go).
pub mod Counts
pub mod Predicates
pub mod CountWindow
pub mod TimeWindow
pub mod Config
pub mod ConfigLaws
pub mod SlidingWindow
pub mod Breaker
pub mod Execute
pub mod Invariant
pub mod Admission
pub mod Trips
pub mod WindowTrips
pub mod Transitions
