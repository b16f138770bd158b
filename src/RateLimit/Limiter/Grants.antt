-- ===== src/RateLimit/Limiter/Grants.antt =====
-- What a grant of Take (ratelimit/limiter.go) rests on.
use fortify.Base.{
  ℕ, ◌≡◌, ◌≢◌, refl, true, false, ◌⊎◌, inl, inr, none, some, arith, Float64, ℤ, is_pos, pos_part,
  ltb_ℤ, Option-cases,
}
use fortify.RateLimit.Errors.{Key}
use fortify.RateLimit.Bucket.{consume, refill, or_full}
use fortify.RateLimit.Store.{Visit, Store, IsAtomic}
use fortify.RateLimit.Limiter.{RateLimiter, resolve_key, try_consume, handle_error, take}

module _ ⦃fl : Float64⦄ (S : Store) (L : IsAtomic S) where
  -- Without an error of the store, tryConsume allows a request exactly if the bucket of the key does.
  pub try_consume-consume :
      (v : Visit) (k : Key) (n : ℕ) (rl : RateLimiter S)
      → (try_consume S v k n rl).2 ≡ none
      → (try_consume S v k n rl).1 ≡ (consume rl.rates n v.now (S.peek rl.store k)).1
  unfolding try_consume
  try_consume-consume v k n rl h =
      ground (arith, L.reads v k (λ s. some (consume rl.rates n v.now s).0) rl.store, h)

  pub rates_kept :
      (v : Visit) (k : Key) (n : ℕ) (rl : RateLimiter S)
      → (try_consume S v k n rl).0.rates ≡ rl.rates
  unfolding try_consume
  rates_kept v k n rl = refl

  -- Take over a store that keeps its promises grants tokens only if the limiter is open, the number is
  -- positive and MaxTokensPerRequest at most, and the bucket of the resolved key, which is full if it is
  -- new, holds after its refill at least that many tokens, or else the store failed, FailOpen is set and the number is Burst at most.
  pub take_grants :
      (v : Visit) (key : Key) (tokens : ℤ) (rl : RateLimiter S)
      → (take S v key tokens rl).1 ≡ true
      → let c = rl.rates.config in
        let k = resolve_key S c v.ctx key in
        (rl.closed ≡ false)
        × (is_pos tokens ≡ true)
        × (ltb_ℤ c.max_tokens_per_request tokens ≡ false)
        × ((fl.fleb
                (fl.of_nat (pos_part tokens))
                (refill rl.rates v.now (or_full rl.rates v.now (S.peek rl.store k))).tokens
              ≡ true)
            ⊎ ((c.fail_open ≡ true)
                × (ltb_ℤ c.burst tokens ≡ false)
                × ((try_consume S v k (pos_part tokens) rl).2 ≢ none)))
  unfolding take handle_error consume
  take_grants v key tokens rl h =
      let k = resolve_key S rl.rates.config v.ctx key in
      elim (Option-cases (try_consume S v k (pos_part tokens) rl).2) [
        | inl fine ↦ ground (arith, fine, try_consume-consume v k (pos_part tokens) rl fine)
        | inr (e, failed) ↦ ground (arith, failed, rates_kept v k (pos_part tokens) rl)
      ]
