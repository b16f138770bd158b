-- ===== src/RateLimit/Limiter/Instant.antt =====
-- How much a bucket of ratelimit/limiter.go grants within one instant of the clock.
use fortify.Base.{
  ℕ, ◌+◌, ◌-◌, ◌≤◌, ◌≡◌, ◌≢◌, sym, ap, subst, ◌∙◌, Bool, false, ◌⊎◌, inl, inr, Option, none, some,
  arith, Float64, ℤ, pos_part, leb, if◌then◌else◌, Option-cases,
}
use fortify.RateLimit.Errors.{Key}
use fortify.RateLimit.Bucket.{BucketState, Rates, consume, refill, or_full}
use fortify.RateLimit.Store.{Visit, Store, IsAtomic}
use fortify.RateLimit.Limiter.{RateLimiter, resolve_key, try_consume, take, handle_error}
use fortify.RateLimit.Limiter.Grants.{try_consume-consume, rates_kept}

-- float64 is exact on the integers up to 2^53.
pub record IsExact (fl : Float64) : Type 0 where
  pub compare :
      (m n : ℕ)
      → m ≤ 9007199254740992
      → n ≤ 9007199254740992
      → fl.fleb (fl.of_nat m) (fl.of_nat n) ≡ leb m n
  pub subtract :
      (m n : ℕ)
      → m ≤ n
      → n ≤ 9007199254740992
      → fl.fsub (fl.of_nat n) (fl.of_nat m) ≡ fl.of_nat (n - m)

module _ ⦃fl : Float64⦄ where
  -- The bucket holds b tokens and was last filled at `now`, or it is new and Burst is b.
  abbrev pub Level : Rates → ℕ → ℕ → Option BucketState → Type 0
  Level r now b none = pos_part r.config.burst ≡ b
  Level r now b (some s) = (s.tokens ≡ fl.of_nat b) × (s.last_refill ≡ now)

  module _ (e : IsExact fl) where
    or_full-Level :
        (r : Rates) (now b : ℕ) (stored : Option BucketState)
        → Level r now b stored
        → Level r now b (some (or_full r now stored))
    or_full-Level r now b none h = ground (arith, h)
    or_full-Level r now b (some s) h = h

    refill-Level :
        (r : Rates) (now b : ℕ) (s : BucketState) → Level r now b (some s) → refill r now s ≡ s
    unfolding refill
    refill-Level r now b s h = ground (arith, h.0, h.1)

    -- At the instant of the last refill a request takes what it asks for, or leaves the bucket.
    consume-Level :
        (r : Rates) (n now b : ℕ) (stored : Option BucketState)
        → Level r now b stored
        → n ≤ 9007199254740992
        → b ≤ 9007199254740992
        → ((consume r n now stored).1 ≡ leb n b)
          × Level r now (if leb n b then b - n else b) (some (consume r n now stored).0)
    unfolding consume
    consume-Level r n now b stored h k l =
        let full = or_full-Level r now b stored h in
        ground (
          arith,
          full.0,
          full.1,
          refill-Level r now b (or_full r now stored) full,
          e.compare n b k l,
          e.subtract n b,
        )

  module _ (S : Store) (L : IsAtomic S) (e : IsExact fl) where
    -- The ways through Take when the limiter fails closed.
    take-cases :
        (v : Visit) (key : Key) (tokens : ℤ) (rl : RateLimiter S)
        → rl.rates.config.fail_open ≡ false
        → let t = try_consume S v (resolve_key S rl.rates.config v.ctx key) (pos_part tokens) rl in
          let out = take S v key tokens rl in
          ((out.0.store ≡ rl.store) × (out.1 ≡ false))
          ⊎ ((out.0.store ≡ t.0.store) × (out.1 ≡ false) × (t.2 ≢ none))
          ⊎ ((out.0.store ≡ t.0.store)
              × (out.1 ≡ t.1)
              × (t.2 ≡ none)
              × (pos_part tokens ≤ pos_part rl.rates.config.max_tokens_per_request))
    unfolding take handle_error
    take-cases v key tokens rl closed =
        let k = resolve_key S rl.rates.config v.ctx key in
        elim (Option-cases (try_consume S v k (pos_part tokens) rl).2) [
          | inl fine ↦ ground (arith, fine, closed)
          | inr (x, failed) ↦
              ground (arith, failed, closed, rates_kept S L v k (pos_part tokens) rl)
        ]

    fine_writes :
        (v : Visit) (k : Key) (n : ℕ) (rl : RateLimiter S)
        → (try_consume S v k n rl).2 ≡ none
        → S.peek (try_consume S v k n rl).0.store k
          ≡ some (consume rl.rates n v.now (S.peek rl.store k)).0
    unfolding try_consume
    fine_writes v k n rl h = L.writes v k (λ s. some (consume rl.rates n v.now s).0) rl.store h

    failed_keeps :
        (v : Visit) (k : Key) (n : ℕ) (rl : RateLimiter S)
        → (try_consume S v k n rl).2 ≢ none
        → S.peek (try_consume S v k n rl).0.store k ≡ S.peek rl.store k
    unfolding try_consume
    failed_keeps v k n rl h = L.fails v k (λ s. some (consume rl.rates n v.now s).0) rl.store h

    abbrev pub spent : Bool → ℤ → ℕ
    spent granted tokens = if granted then pos_part tokens else 0

    pub take-Level :
        (v : Visit) (key : Key) (tokens : ℤ) (rl : RateLimiter S) (b : ℕ)
        → rl.rates.config.fail_open ≡ false
        → pos_part rl.rates.config.max_tokens_per_request ≤ 9007199254740992
        → b ≤ 9007199254740992
        → Level rl.rates v.now b (S.peek rl.store (resolve_key S rl.rates.config v.ctx key))
        → let out = take S v key tokens rl in
          (b' : ℕ) × Level rl.rates v.now b'
            (S.peek out.0.store (resolve_key S rl.rates.config v.ctx key))
          × (spent out.1 tokens + b' ≡ b)
    take-Level v key tokens rl b closed small room h =
        let k = resolve_key S rl.rates.config v.ctx key in
        let n = pos_part tokens in
        let f : Option BucketState → Option BucketState =
          λ s. some (consume rl.rates n v.now s).0 in
        let at : Option BucketState → ℕ → Type 0 = λ o b'. Level rl.rates v.now b' o in
        elim (take-cases v key tokens rl closed) [
          | inl (same, none_spent) ↦
              (b, subst (λ st. at (S.peek st k) b) (sym same) h, ground (arith, none_spent))
          | inr (inl (moved, none_spent, failed)) ↦
              let kept : S.peek (take S v key tokens rl).0.store k ≡ S.peek rl.store k =
                ap (λ st. S.peek st k) moved ∙ failed_keeps v k n rl failed in
              (b, subst (λ o. at o b) (sym kept) h, ground (arith, none_spent))
          | inr (inr (moved, got, fine, few)) ↦
              let (granted, level) =
                consume-Level e rl.rates n v.now b (S.peek rl.store k) h (omega arith) room in
              let kept : S.peek (take S v key tokens rl).0.store k
                  ≡ some (consume rl.rates n v.now (S.peek rl.store k)).0 =
                ap (λ st. S.peek st k) moved ∙ fine_writes v k n rl fine in
              (
                if leb n b then b - n else b,
                subst (λ o. at o (if leb n b then b - n else b)) (sym kept) level,
                ground (arith, got, granted, try_consume-consume S L v k n rl fine),
              )
        ]
