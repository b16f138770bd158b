-- ===== src/Examples/RateCases.antt =====
-- The rate limiter over the store in memory, at work (ratelimit/).
use fortify.Base.{
  ℕ, ◌+◌, ◌≤◌, ◌≡◌, ◌≢◌, refl, ◌⊎◌, true, false, Option, none, some, [], arith, pos, ◌∷◌, length,
  ltb_ℤ, is_pos, mul_int64,
}
use fortify.RateLimit.Errors.{Key, same_key}
use fortify.RateLimit.Config.{Config, set_defaults}
use fortify.RateLimit.Bucket.{BucketState, new_rates, consume, refill, or_full}
use fortify.RateLimit.Store.{Visit, IsAtomic, Store, or_old}
use fortify.RateLimit.Memory.{
  atomic_update_amid, entry_for, MemoryStore, new_memory_store_with_options, with_max_keys, lookup,
  atomic_update, get, peek, reserve, load_or_store, memory_store,
}
use fortify.RateLimit.Memory.Atomic.{memory_store-IsAtomic}
use fortify.RateLimit.Memory.RoundTrip.{Update, run_updates, get-atomic_update}
use fortify.RateLimit.Memory.Amid.{update_amid}
use fortify.RateLimit.Memory.Count.{
  System, Reach, here, next, reserves, exceeds, stores, init, keys_counted,
}
use fortify.RateLimit.Limiter.{RateLimiter, resolve_key, take, try_consume}
use fortify.RateLimit.Limiter.Grants.{take_grants}
use fortify.RateLimit.Limiter.Instant.{IsExact}
use fortify.RateLimit.Limiter.Burst.{Request, granted, granted_burst}
use fortify.RateLimit.Wait.{Round, wait, default_max_wait_iterations}
use fortify.RateLimit.Wait.Laws.{Ended, wait-Ended}
use fortify.Examples.Ratio.{ratio}

abbrev config : Config
config = record {
  key_func = none;
  interval = pos 1000000000;
  rate = pos 2;
  burst = pos 3;
  max_tokens_per_request = pos 0;
  fail_open = false;
}

abbrev two_keys : MemoryStore
two_keys = new_memory_store_with_options (with_max_keys (pos 1) ∷ [])

abbrev pub store : Store
store = memory_store

abbrev pub limiter : RateLimiter store
limiter = record { rates = new_rates config; closed = false; store = two_keys }

abbrev pub alice : Key
alice = 97 ∷ []

abbrev pub visit : Visit
visit = record { ctx = record { err = none; values = 0 }; err_locked = none; now = 5000000000 }

memory_store-IsAtomic_example : IsAtomic store
memory_store-IsAtomic_example = memory_store-IsAtomic

abbrev one_token : Option BucketState → Option BucketState
one_token s = some (record { tokens = (1, 1); last_refill = 7 })

-- Another key is updated, or refused, in between.
abbrev other_update : Update
other_update = record { visit = visit; key = 98 ∷ []; update = one_token }

get-atomic_update_example :
    get visit alice
      (run_updates (other_update ∷ []) (atomic_update visit alice one_token two_keys).store)
    ≡ (some (record { tokens = (1, 1); last_refill = 7 }), none)
unfolding atomic_update peek new_memory_store_with_options lookup same_key
get-atomic_update_example =
    get-atomic_update visit visit alice one_token two_keys (other_update ∷ []) refl refl (refl, tt)

-- The other goroutine stores a bucket with 1 token, and this one puts 2 tokens into it.
abbrev one_more : Option BucketState → Option BucketState
one_more none = none
one_more (some s) = some (record s { tokens = (2, 1) })

abbrev same_key_update : Update
same_key_update = record { visit = visit; key = alice; update = one_token }

update_amid_example :
    let found = (entry_for alice visit.now two_keys).0 in
    let before = run_updates (same_key_update ∷ []) found in
    let out =
      atomic_update_amid (run_updates (same_key_update ∷ [])) visit alice one_more two_keys in
    (peek found alice ≡ peek two_keys alice)
    × (out.seen ≡ some (peek before alice))
    × (peek out.store alice ≡ or_old (one_more (peek before alice)) (peek before alice))
    × ((j : Key) → same_key alice j ≡ false → peek out.store j ≡ peek before j)
unfolding atomic_update_amid new_memory_store_with_options lookup atomic_update same_key
    fortify.RateLimit.Memory.replace
update_amid_example = update_amid (same_key_update ∷ []) visit alice one_more two_keys refl

abbrev one_stored : System
one_stored = record {
  store = (load_or_store alice 5 (reserve two_keys).0).0;
  granted = 0;
  owing = 0;
}

abbrev full : System
full = record one_stored { store = (reserve one_stored.store).0; owing = 1 }

full-Reach : Reach (init (with_max_keys (pos 1) ∷ [])) full
unfolding new_memory_store_with_options reserve load_or_store lookup
full-Reach =
    next (next (next here (reserves refl)) (stores alice 5 (omega arith) refl)) (exceeds refl)

keys_counted_example :
    (length full.store.buckets ≤ full.store.max_keys)
    × (full.store.key_count ≡ length full.store.buckets + full.granted + full.owing)
keys_counted_example = keys_counted (with_max_keys (pos 1) ∷ []) full full-Reach

take_grants_example :
    let c = limiter.rates.config in
    let k = resolve_key store c visit.ctx alice in
    (limiter.closed ≡ false)
    × (is_pos (pos 2) ≡ true)
    × (ltb_ℤ c.max_tokens_per_request (pos 2) ≡ false)
    × ((ratio.fleb
            (ratio.of_nat 2)
            (refill limiter.rates visit.now
              (or_full limiter.rates visit.now (peek limiter.store k))).tokens
          ≡ true)
        ⊎ ((c.fail_open ≡ true)
            × (ltb_ℤ c.burst (pos 2) ≡ false)
            × ((try_consume store visit k 2 limiter).2 ≢ none)))
unfolding take new_rates mul_int64 atomic_update new_memory_store_with_options lookup consume
take_grants_example = take_grants store memory_store-IsAtomic visit alice (pos 2) limiter refl

ratio-IsExact : IsExact ratio
ratio-IsExact = record { compare = λ m n h k. ground arith; subtract = λ m n h k. ground arith }

abbrev ask : Key → Request
ask k = record { visit = visit; key = k; tokens = pos 2 }

granted_burst_example : granted store alice (ask alice ∷ ask alice ∷ ask [] ∷ []) limiter ≤ 3
unfolding peek lookup new_memory_store_with_options set_defaults
granted_burst_example =
    granted_burst store memory_store-IsAtomic ratio-IsExact config alice 5000000000
      (ask alice ∷ ask alice ∷ ask [] ∷ []) limiter refl refl refl (refl, (refl, (refl, tt)))

abbrev round : ℕ → Round
round i = record {
  since_start = i;
  ctx_err = none;
  visit = visit;
  get_visit = visit;
  interrupted = none;
}

wait-Ended_example :
    Ended store round
      (resolve_key store limiter.rates.config visit.ctx alice)
      default_max_wait_iterations
      0
      (wait store round visit.ctx alice limiter)
wait-Ended_example = wait-Ended store round visit.ctx alice limiter
