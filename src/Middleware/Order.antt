-- ===== src/Middleware/Order.antt =====
-- In which order the middlewares of a chain (middleware/chain.go) wrap the operation.
use fortify.Base.{
  ℕ, zero, suc, ◌≡◌, refl, sym, ap, ◌∙◌, Option, none, some, ℤ, List, [], ◌∷◌, ◌++◌, length,
}
use fortify.Ferrors.{Error}
use fortify.RateLimit.Errors.{Key}
use fortify.Middleware.Chain.{
  Next, Middleware, Chain, Component, RateLimiter, Timeout, wrap, execute, new, through, limited,
  with_circuit_breaker, with_retry, with_bulkhead, with_adaptive, with_budget, with_hedge,
  with_fallback, with_rate_limit, with_timeout,
}

module _ (World Ctx T : Type 0) where
  -- The calls of the methods With*, each with its arguments.
  pub data Layer : Type 0 where
    circuit_breaker retry bulkhead adaptive budget hedge fallback : Component World Ctx T → Layer
    rate_limit : T → RateLimiter World Ctx T → Key → Layer
    timeout : Timeout World Ctx T → ℤ → Layer

module _ {World Ctx T : Type 0} where
  -- The first middleware outermost.
  abbrev pub nested : List (Middleware World Ctx T) → Next World Ctx T → Next World Ctx T
  nested [] fn = fn
  nested (m ∷ ms) fn = m (nested ms fn)

  wrap-cons :
      (m : Middleware World Ctx T) (ms : List (Middleware World Ctx T)) (i : ℕ)
      (next : Next World Ctx T)
      → wrap (m ∷ ms) (suc i) next ≡ m (wrap ms i next)
  unfolding wrap
  wrap-cons m ms zero next = refl
  wrap-cons m ms (suc i) next = wrap-cons m ms i _

  wrap-nested :
      (ms : List (Middleware World Ctx T)) (fn : Next World Ctx T)
      → wrap ms (length ms) fn ≡ nested ms fn
  unfolding wrap
  wrap-nested [] fn = refl
  wrap-nested (m ∷ ms) fn = wrap-cons m ms (length ms) fn ∙ ap m (wrap-nested ms fn)

  nested-append :
      (outer inner : List (Middleware World Ctx T)) (fn : Next World Ctx T)
      → nested (outer ++ inner) fn ≡ nested outer (nested inner fn)
  nested-append [] inner fn = refl
  nested-append (m ∷ outer) inner fn = ap m (nested-append outer inner fn)

  abbrev pub with_layer : Layer World Ctx T → Chain World Ctx T → Chain World Ctx T
  with_layer (circuit_breaker x) c = with_circuit_breaker x c
  with_layer (retry x) c = with_retry x c
  with_layer (bulkhead x) c = with_bulkhead x c
  with_layer (adaptive x) c = with_adaptive x c
  with_layer (budget x) c = with_budget x c
  with_layer (hedge x) c = with_hedge x c
  with_layer (fallback x) c = with_fallback x c
  with_layer (rate_limit zero_value rl key) c = with_rate_limit zero_value rl key c
  with_layer (timeout tm duration) c = with_timeout tm duration c

  -- `New().With…().With…()` in the order of the list.
  abbrev pub built : List (Layer World Ctx T) → Chain World Ctx T → Chain World Ctx T
  built [] c = c
  built (l ∷ ls) c = built ls (with_layer l c)

  -- The pattern around what comes next: its Execute on it, and for a rate limiter what comes next
  -- once Wait has no error.
  abbrev pub around : Layer World Ctx T → Next World Ctx T → Next World Ctx T
  around (circuit_breaker x) next ctx w = x.execute ctx next w
  around (retry x) next ctx w = x.execute ctx next w
  around (bulkhead x) next ctx w = x.execute ctx next w
  around (adaptive x) next ctx w = x.execute ctx next w
  around (budget x) next ctx w = x.execute ctx next w
  around (hedge x) next ctx w = x.execute ctx next w
  around (fallback x) next ctx w = x.execute ctx next w
  around (rate_limit zero_value rl key) next ctx w =
      let waited = rl.wait ctx key w in
      elim waited.1 [ some e ↦ (waited.0, (zero_value, some e)) | none ↦ next ctx waited.0 ]
  around (timeout tm duration) next ctx w = tm.execute ctx duration next w

  -- The first layer outermost.
  abbrev pub layered : List (Layer World Ctx T) → Next World Ctx T → Next World Ctx T
  layered [] fn = fn
  layered (l ∷ ls) fn = around l (layered ls fn)

  with_layer-middlewares :
      (l : Layer World Ctx T) (c : Chain World Ctx T)
      → (with_layer l c).middlewares ≡ c.middlewares ++ (around l ∷ [])
  unfolding with_circuit_breaker with_retry with_bulkhead with_adaptive with_budget with_hedge
      with_fallback with_rate_limit with_timeout through limited
  with_layer-middlewares (circuit_breaker x) c = refl
  with_layer-middlewares (retry x) c = refl
  with_layer-middlewares (bulkhead x) c = refl
  with_layer-middlewares (adaptive x) c = refl
  with_layer-middlewares (budget x) c = refl
  with_layer-middlewares (hedge x) c = refl
  with_layer-middlewares (fallback x) c = refl
  with_layer-middlewares (rate_limit zero_value rl key) c = refl
  with_layer-middlewares (timeout tm duration) c = refl

  execute-nested :
      (c : Chain World Ctx T) (ctx : Ctx) (fn : Next World Ctx T) (w : World)
      → execute ctx fn w c ≡ nested c.middlewares fn ctx w
  unfolding execute
  execute-nested c ctx fn w = ap (λ (f : Next World Ctx T). f ctx w) (wrap-nested c.middlewares fn)

  nested-built :
      (ls : List (Layer World Ctx T)) (c : Chain World Ctx T) (fn : Next World Ctx T)
      → nested (built ls c).middlewares fn ≡ nested c.middlewares (layered ls fn)
  nested-built [] c fn = refl
  nested-built (l ∷ ls) c fn =
      nested-built ls (with_layer l c) fn
      ∙ ap (λ ms. nested ms (layered ls fn)) (with_layer-middlewares l c)
      ∙ nested-append c.middlewares (around l ∷ []) (layered ls fn)

  -- Execute of a chain that any calls of the methods With* have extended runs, inside the layers that it
  -- had before, the new patterns nested in each other around fn, the one added first outermost; a
  -- new chain runs these alone.
  pub execute_nested :
      (ls : List (Layer World Ctx T)) (c : Chain World Ctx T) (ctx : Ctx) (fn : Next World Ctx T)
      (w : World)
      → (execute ctx fn w (built ls c) ≡ execute ctx (layered ls fn) w c)
        × (execute ctx fn w (built ls new) ≡ layered ls fn ctx w)
  unfolding new
  execute_nested ls c ctx fn w =
      let run : Next World Ctx T → World × (T × Option Error) = λ f. f ctx w in
      (
        execute-nested (built ls c) ctx fn w
            ∙ ap run (nested-built ls c fn)
            ∙ sym (execute-nested c ctx (layered ls fn) w),
        execute-nested (built ls new) ctx fn w ∙ ap run (nested-built ls new fn),
      )
