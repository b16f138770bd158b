-- ===== src/RateLimit/Limiter/Burst.antt =====
-- Any number of calls of Take (ratelimit/limiter.go) at one reading of the clock grant the burst at
-- most.
use fortify.Base.{
  ℕ, ◌+◌, ◌≤◌, ◌≡◌, refl, sym, subst, false, inl, inr, none, some, List, [], ◌∷◌, All, arith,
  Float64, ℤ, pos_part, if◌then◌else◌, Bool-cases,
}
use fortify.RateLimit.Errors.{Key, same_key}
use fortify.RateLimit.Config.{Config, set_defaults}
use fortify.RateLimit.Bucket.{Rates, new_rates, consume}
use fortify.RateLimit.Store.{Visit, Store, IsAtomic}
use fortify.RateLimit.Memory.Atomic.{same_key-eq}
use fortify.RateLimit.Limiter.{RateLimiter, resolve_key, try_consume, take}
use fortify.RateLimit.Limiter.Instant.{IsExact, Level, take-Level}

pub record Request : Type 0 where
  pub visit : Visit
  pub key : Key
  pub tokens : ℤ

abbrev pub AllAt : ℕ → List Request → Type 0
AllAt now = All (λ (q : Request). q.visit.now ≡ now)

module _ ⦃fl : Float64⦄ (S : Store) where
  abbrev resolved : RateLimiter S → Request → Key
  resolved rl q = resolve_key S rl.rates.config q.visit.ctx q.key

  -- The tokens that Take grants for the resolved key k.
  unfoldable pub granted : Key → List Request → RateLimiter S → ℕ
  granted k [] rl = 0
  granted k (q ∷ rest) rl =
      let (rl', ok) = take S q.visit q.key q.tokens rl in
      let more = granted k rest rl' in
      if same_key (resolved rl q) k then (if ok then pos_part q.tokens else 0) + more else more

  take-rates :
      (v : Visit) (key : Key) (tokens : ℤ) (rl : RateLimiter S)
      → (take S v key tokens rl).0.rates ≡ rl.rates
  unfolding take try_consume
  take-rates v key tokens rl = ground arith

  module _ (L : IsAtomic S) where
    take_others :
        (v : Visit) (key k : Key) (tokens : ℤ) (rl : RateLimiter S)
        → same_key (resolve_key S rl.rates.config v.ctx key) k ≡ false
        → S.peek (take S v key tokens rl).0.store k ≡ S.peek rl.store k
    unfolding take try_consume
    take_others v key k tokens rl h = ground (
      arith,
      L.others v (resolve_key S rl.rates.config v.ctx key) k
          (λ s. some (consume rl.rates (pos_part tokens) v.now s).0) rl.store h,
    )

    module _ (e : IsExact fl) where
      granted_bound :
          (k : Key) (now b : ℕ) (requests : List Request) (rl : RateLimiter S)
          → rl.rates.config.fail_open ≡ false
          → pos_part rl.rates.config.max_tokens_per_request ≤ 9007199254740992
          → b ≤ 9007199254740992
          → Level rl.rates now b (S.peek rl.store k)
          → AllAt now requests
          → granted k requests rl ≤ b
      unfolding granted
      granted_bound k now b [] rl closed small room h at_now = omega arith
      granted_bound k now b (q ∷ rest) rl closed small room h at_now =
          let j = resolved rl q in
          let rl' = (take S q.visit q.key q.tokens rl).0 in
          let rates = sym (take-rates q.visit q.key q.tokens rl) in
          let closed' = subst (λ (r : Rates). r.config.fail_open ≡ false) rates closed in
          let small' =
            subst (λ (r : Rates). pos_part r.config.max_tokens_per_request ≤ 9007199254740992) rates
              small in
          let onwards =
            λ (b' : ℕ) (room' : b' ≤ 9007199254740992)
                (h' : Level rl.rates now b' (S.peek rl'.store k)).
              granted_bound k now b' rest rl' closed' small' room'
                (subst (λ (r : Rates). Level r now b' (S.peek rl'.store k)) rates h') at_now.1 in
          elim (Bool-cases (same_key j k)) [
            | inl ours ↦
                let to_k = same_key-eq j k ours in
                let (b', h', sum) = take-Level S L e q.visit q.key q.tokens rl b closed small room (
                  subst (λ t. Level rl.rates t b (S.peek rl.store j)) (sym at_now.0)
                    (subst (λ i. Level rl.rates now b (S.peek rl.store i)) (sym to_k) h)) in
                let rest_bound = onwards b' (omega arith) (
                  subst (λ i. Level rl.rates now b' (S.peek rl'.store i)) to_k
                    (subst (λ t. Level rl.rates t b' (S.peek rl'.store j)) at_now.0 h')) in
                rw ours (omega (arith, sum, rest_bound))
            | inr other ↦
                let kept = take_others q.visit q.key k q.tokens rl other in
                rw other (onwards b room (subst (Level rl.rates now b) (sym kept) h))
          ]

      defaults_fit :
          (c : Config)
          → (pos_part (set_defaults c).max_tokens_per_request ≤ 9007199254740992)
            × (pos_part (set_defaults c).burst ≤ 9007199254740992)
      unfolding set_defaults
      defaults_fit c = ground arith

      -- A limiter that fails closed, over any store that keeps its promises, grants Burst tokens at
      -- most from a new bucket within one reading of the clock, whatever the number and the keys of the
      -- calls of Take, if float64 is exact on the integers up to 2^53.
      pub granted_burst :
          (c : Config) (k : Key) (now : ℕ) (requests : List Request) (rl : RateLimiter S)
          → c.fail_open ≡ false
          → rl.rates ≡ new_rates c
          → S.peek rl.store k ≡ none
          → AllAt now requests
          → granted k requests rl ≤ pos_part (set_defaults c).burst
      unfolding new_rates
      granted_burst c k now requests rl closed r fresh at_now =
          let (small, room) = defaults_fit c in
          let b = pos_part (set_defaults c).burst in
          let r' = sym r in
          granted_bound k now b requests rl
            (subst (λ (x : Rates). x.config.fail_open ≡ false) r' closed)
            (subst (λ (x : Rates). pos_part x.config.max_tokens_per_request ≤ 9007199254740992) r'
              small)
            room
            (subst (λ o. Level rl.rates now b o) (sym fresh)
              (subst (λ (x : Rates). pos_part x.config.burst ≡ b) r' refl))
            at_now
