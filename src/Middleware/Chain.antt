-- ===== src/Middleware/Chain.antt =====
-- The chain of middleware/chain.go. A function of the program is given the world, which holds the state
-- of every component, and returns it with its result. What the chain calls of a component is its
-- method Execute, or Wait for the rate limiter.
use fortify.Base.{ℕ, zero, suc, Option, none, some, List, [], ◌∷◌, ◌++◌, length, ℤ}
use fortify.Ferrors.{Error}
use fortify.RateLimit.Errors.{Key}

module _ (World Ctx T : Type 0) where
  -- func(context.Context) (T, error)
  abbrev pub Next : Type 0
  Next = Ctx → World → World × (T × Option Error)

  abbrev pub Middleware : Type 0
  Middleware = Next → Next

  pub record Chain : Type 0 where
    pub middlewares : List Middleware

  -- The method Execute of a circuit breaker, a retry, a bulkhead, an adaptive limiter, a budget, a hedge
  -- or a fallback; that of a timeout; and Wait of a rate limiter.
  pub record Component : Type 0 where
    pub execute : Ctx → Next → World → World × (T × Option Error)

  pub record Timeout : Type 0 where
    pub execute : Ctx → ℤ → Next → World → World × (T × Option Error)

  pub record RateLimiter : Type 0 where
    pub wait : Ctx → Key → World → World × Option Error

module _ {World Ctx T : Type 0} where
  unfoldable pub new : Chain World Ctx T
  new = record { middlewares = [] }

  abbrev add : Middleware World Ctx T → Chain World Ctx T → Chain World Ctx T
  add m c = record { middlewares = c.middlewares ++ (m ∷ []) }

  unfoldable pub through : Component World Ctx T → Middleware World Ctx T
  through component next ctx w = component.execute ctx next w

  unfoldable pub with_circuit_breaker :
      Component World Ctx T → Chain World Ctx T → Chain World Ctx T
  unfolding through
  with_circuit_breaker cb c = add (through cb) c

  unfoldable pub with_retry : Component World Ctx T → Chain World Ctx T → Chain World Ctx T
  unfolding through
  with_retry r c = add (through r) c

  unfoldable pub limited : T → RateLimiter World Ctx T → Key → Middleware World Ctx T
  limited zero_value rl key next ctx w =
      let (w', err) = rl.wait ctx key w in
      elim err [ some e ↦ (w', (zero_value, some e)) | none ↦ next ctx w' ]

  unfoldable pub with_rate_limit :
      T → RateLimiter World Ctx T → Key → Chain World Ctx T → Chain World Ctx T
  unfolding limited
  with_rate_limit zero_value rl key c = add (limited zero_value rl key) c

  unfoldable pub with_timeout : Timeout World Ctx T → ℤ → Chain World Ctx T → Chain World Ctx T
  with_timeout tm duration c = add (λ next ctx w. tm.execute ctx duration next w) c

  unfoldable pub with_bulkhead : Component World Ctx T → Chain World Ctx T → Chain World Ctx T
  unfolding through
  with_bulkhead bh c = add (through bh) c

  unfoldable pub with_adaptive : Component World Ctx T → Chain World Ctx T → Chain World Ctx T
  unfolding through
  with_adaptive a c = add (through a) c

  unfoldable pub with_budget : Component World Ctx T → Chain World Ctx T → Chain World Ctx T
  unfolding through
  with_budget b c = add (through b) c

  unfoldable pub with_hedge : Component World Ctx T → Chain World Ctx T → Chain World Ctx T
  unfolding through
  with_hedge h c = add (through h) c

  unfoldable pub with_fallback : Component World Ctx T → Chain World Ctx T → Chain World Ctx T
  unfolding through
  with_fallback fb c = add (through fb) c

  -- c.middlewares[i], or none out of range.
  abbrev pub element : List (Middleware World Ctx T) → ℕ → Option (Middleware World Ctx T)
  element [] i = none
  element (m ∷ ms) zero = some m
  element (m ∷ ms) (suc i) = element ms i

  abbrev apply : Option (Middleware World Ctx T) → Middleware World Ctx T
  apply none next = next
  apply (some m) next = m next

  -- The loop of Execute, with i + 1 for its index, which stays in range.
  unfoldable pub wrap : List (Middleware World Ctx T) → ℕ → Next World Ctx T → Next World Ctx T
  wrap ms zero next = next
  wrap ms (suc i) next = wrap ms i (apply (element ms i) next)

  unfoldable pub execute :
      Ctx → Next World Ctx T → World → Chain World Ctx T → World × (T × Option Error)
  unfolding wrap
  execute ctx fn w c = wrap c.middlewares (length c.middlewares) fn ctx w
