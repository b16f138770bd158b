-- ===== src/Examples/ChainCases.antt =====
-- A chain of a rate limiter and a retry (middleware/).
use fortify.Base.{ℕ, zero, suc, ◌+◌, ◌≡◌, refl, none, some, List, [], ◌∷◌}
use fortify.Ferrors.{sentinel, err_rate_limit_exceeded}
use fortify.Middleware.Chain.{
  Next, Component, RateLimiter, new, with_rate_limit, with_retry, limited, execute,
}
use fortify.Middleware.Order.{Layer, rate_limit, retry, built, layered, execute_nested}

-- The world counts tokens and calls.
abbrev limiter : RateLimiter (ℕ × ℕ) ℕ ℕ
limiter = record {
  wait = λ ctx key w. elim w.0 [
    | zero ↦ (w, some (sentinel err_rate_limit_exceeded))
    | suc n ↦ ((n, w.1), none)
  ];
}

-- Two calls whatever the first returns.
abbrev twice : Component (ℕ × ℕ) ℕ ℕ
twice = record { execute = λ ctx next w. next ctx (next ctx w).0 }

abbrev call : Next (ℕ × ℕ) ℕ ℕ
call ctx w = ((w.0, w.1 + 1), (ctx, none))

abbrev layers : List (Layer (ℕ × ℕ) ℕ ℕ)
layers = rate_limit 0 limiter [] ∷ retry twice ∷ []

-- One token is enough for both calls, since the limiter is outermost.
execute_nested_example :
    (execute 5 call (1, 0) (built layers new) ≡ execute 5 (layered layers call) (1, 0) new)
    × (execute 5 call (1, 0) (built layers new) ≡ layered layers call 5 (1, 0))
execute_nested_example = execute_nested layers new 5 call (1, 0)

one_token_two_calls :
    execute 5 call (1, 0) (with_retry twice (with_rate_limit 0 limiter [] new))
    ≡ ((0, 2), (5, none))
unfolding execute with_retry with_rate_limit new limited
one_token_two_calls = refl
