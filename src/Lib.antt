-- ===== src/Lib.antt =====
-- The resilience library fortify: circuit breakers, retries, cost budgets, adaptive concurrency
-- limits, bulkheads, hedged requests, fallbacks, timeouts, rate limits, and the errors that they
-- share. Each pattern wraps an operation of the caller; they meet through the errors, which are
-- found by errors.Is and errors.As (the circuit breaker refuses with an error that the retry by
-- default does not retry).
--
-- Files and code:
--   Base: Boolean tests, lists and Go's integers over the native numbers, wrap-around written
--     out, and an interface for float64 (Base/Float), whose operations are parameters.
--   Ferrors: ferrors/errors.go. An error is a tree of what errors.Is and errors.As see:
--     sentinels, structured errors, wrapping by %w, errors.Join and AsRetryable.
--   CircuitBreaker: circuitbreaker/. Counts is state.go, Predicates predicates.go, Config
--     config.go and normalizeSlidingWindow of window.go, CountWindow, TimeWindow and
--     SlidingWindow the rest of window.go, Breaker the methods of breaker.go under its lock,
--     Execute its lock-free path and Execute. One `Op` is one critical section of a goroutine;
--     `run` is any interleaving of them, and execute takes the steps of others between its own
--     loads and critical sections. State is a step of its own, which calls of State that overlap and
--     write under the read lock are not.
--   Retry: retry/. Config, Backoff (backoff.go), and Loop (Execute and isRetryable of retry.go).
--     The context, the results of the operation and the random draws are an argument, one record
--     for each attempt.
--   Budget: budget/budget.go. Defs has the operations; Calls takes the atomic steps, and Window
--     the critical sections, of all goroutines in any order.
--   Bulkhead: bulkhead/. Config is config.go, Defs has a function for each select of bulkhead.go,
--     System lets all goroutines take their steps in any order.
--   Adaptive: adaptive/. Config is config.go and Limiter adaptive.go. tryAcquire is given pass by
--     pass; an adaptation of the limit is one step; Traces has the steps of all goroutines in any
--     order.
--   Hedge: hedge/. The loop of Execute and the goroutines that it fires take their steps in any
--     order.
--   Fallback: fallback/. Callbacks are recorded as events.
--   Timeout: timeout/. What the two contexts report after the operation is an argument.
--   RateLimit: ratelimit/. Errors is errors.go, Config config.go. Bucket is the arithmetic of a token
--     bucket (refill, the update of tryConsume, calculateWaitTime), Store the interface of store.go
--     with what it promises, Memory memory.go: the operations whole, in Memory/Amid an AtomicUpdate with
--     calls of others between its load and its lock, and in Memory/Count the atomic steps of all
--     goroutines in any order. Limiter is the rest of limiter.go over any store, Wait
--     its method Wait, LogKey sanitizeLogKey.
--   StreamTimeout: streamtimeout/streamtimeout.go. The operation, its calls of mark, the watchdogs and
--     the clock take their steps in any order.
--   Middleware: Chain is middleware/chain.go, over what the chain calls of the components. Presets
--     has the chains of middleware/presets.go and Presets/Configs their configurations; LlmHedge is
--     LLMHedge of that file, whose loop and goroutines take their steps in any order; Http is
--     middleware/http.go and middleware/http_handler.go.
--   CostBudget: costbudget.go. The dollars are floats, math.Round is an argument, and a panic is none.
--   Http: Sanitize, Recorder and Handlers are http/middleware.go, Streaming is http/streaming.go. A
--     handler is the list of what it does with its writer, and a response the list of the calls that
--     the writer of net/http receives.
--   Grpc: Sanitize and Interceptors are grpc/interceptor.go, Client is grpc/client.go.
--   Examples: concrete runs, with fractions for float64.
--
-- Instants are nanoseconds since the Unix epoch and are read from arguments. The loops end by
-- structural recursion: Execute of retry.go on the number of attempts that are left, which starts
-- at MaxAttempts as the loop of the code does, and Wait of limiter.go on the 10000 iterations
-- that the code allows, so no fuel is needed.
--
-- Interleavings that are left out: calls of State that overlap while a period has expired; an
-- AtomicUpdate of the store in memory whose entry is changed and then removed, or removed and stored
-- again, between its load and its lock; the atomics of two adaptations of one adaptive limiter
-- between each other.
--
-- Not modelled: logging, formatting of errors, panics of operations and of callbacks. The functions
-- sanitizeUnicode (a parameter) and the key extractors of http/middleware.go call packages for
-- Unicode and for addresses; Hijack and Push only forward. metrics, otel and slog are glue to other
-- packages; testing and examples are no part of the library. compose.go and the other methods of
-- the Composer delegate to the chain.
pub mod Base
pub mod Ferrors
pub mod CircuitBreaker
pub mod Retry
pub mod Budget
pub mod Bulkhead
pub mod Adaptive
pub mod Hedge
pub mod Fallback
pub mod Timeout
pub mod StreamTimeout
pub mod CostBudget
pub mod RateLimit
pub mod Middleware
pub mod Http
pub mod Grpc
pub mod Examples
