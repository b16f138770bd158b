-- ===== src/RateLimit/Memory/Count.antt =====
-- The number of keys in a MemoryStore (ratelimit/memory.go) under any interleaving: the pre-increment
-- of keyCount, and the races that end in a decrement.
use fortify.Base.{
  ℕ, ◌+◌, ◌-◌, ◌≤◌, ◌<◌, ◌≡◌, refl, true, false, Option, none, some, List, [], ◌∷◌, arith, Float64,
  length,
}
use fortify.RateLimit.Errors.{Key}
use fortify.RateLimit.Store.{Visit, or_old}
use fortify.RateLimit.Bucket.{BucketState}
use fortify.RateLimit.Memory.{
  BucketEntry, MemoryStore, MemoryStoreOption, lookup, replace, without, reserve, release,
  load_or_store, load_and_delete, update_locked, close, apply_option, apply_options, default_store,
  new_memory_store_with_options,
}

module _ ⦃fl : Float64⦄ where
  -- The store, and where the goroutines stand: `granted` ones have counted a key that the maximum
  -- allows and have not stored it yet, `owing` ones have still to take one off the count: their new
  -- count was above the maximum, or they lost the race for their key, or they deleted a key.
  pub record System : Type 0 where
    pub store : MemoryStore
    pub granted : ℕ
    pub owing : ℕ

  abbrev pub init : List MemoryStoreOption → System
  init opts = record { store = new_memory_store_with_options opts; granted = 0; owing = 0 }

  -- One atomic step of AtomicUpdate, Delete, cleanup, Reset or Close in some goroutine.
  pub data Step (s : System) : System → Type 0 where
    reserves :
        (reserve s.store).1 ≡ false
        → Step s (record s { store = (reserve s.store).0; granted = s.granted + 1 })
    exceeds :
        (reserve s.store).1 ≡ true
        → Step s (record s { store = (reserve s.store).0; owing = s.owing + 1 })
    stores :
        (k : Key) (now : ℕ)
        → 0 < s.granted
        → lookup k s.store.buckets ≡ none
        → Step s (record s { store = (load_or_store k now s.store).0; granted = s.granted - 1 })
    loses :
        (k : Key) (now : ℕ) (entry : BucketEntry)
        → 0 < s.granted
        → lookup k s.store.buckets ≡ some entry
        → Step s (record {
          store = (load_or_store k now s.store).0;
          granted = s.granted - 1;
          owing = s.owing + 1;
        })
    releases : 0 < s.owing → Step s (record s { store = release s.store; owing = s.owing - 1 })
    updates :
        (v : Visit) (k : Key) (f : Option BucketState → Option BucketState) (entry : BucketEntry)
        → Step s (record s { store = (update_locked v k f entry s.store).store })
    deletes :
        (k : Key) (entry : BucketEntry)
        → lookup k s.store.buckets ≡ some entry
        → Step s (record s { store = (load_and_delete k s.store).0; owing = s.owing + 1 })
    closes : Step s (record s { store = close s.store })

  pub data Reach (s : System) : System → Type 0 where
    here : Reach s s
    next : {t u : System} → Reach s t → Step t u → Reach s u

  length-replace :
      (k : Key) (a : BucketEntry) (l : List (Key × BucketEntry)) → length (replace k a l) ≡ length l
  unfolding replace
  length-replace k a [] = refl
  length-replace k a ((j, b) ∷ rest) = ground (arith, length-replace k a rest)

  length-without :
      (k : Key) (a : BucketEntry) (l : List (Key × BucketEntry))
      → lookup k l ≡ some a
      → length (without k l) + 1 ≡ length l
  unfolding without lookup
  length-without k a [] h = ground arith
  length-without k a ((j, b) ∷ rest) h = ground (arith, length-without k a rest)

  pub record Inv (s : System) : Type 0 where
    pub counted : s.store.key_count ≡ length s.store.buckets + s.granted + s.owing
    pub bounded : length s.store.buckets + s.granted ≤ s.store.max_keys

  Step-Inv : (s t : System) → Step s t → Inv s → Inv t
  unfolding reserve release load_or_store load_and_delete update_locked close
  Step-Inv s _ (reserves h) v = ground (arith, h)
  Step-Inv s _ (exceeds h) v = ground (arith, h)
  Step-Inv s _ (stores k now p h) v = ground (arith, h)
  Step-Inv s _ (loses k now e p h) v = ground (arith, h)
  Step-Inv s _ (releases p) v = ground arith
  Step-Inv s _ (updates w k f entry) v = ground (
    arith,
    length-replace k (record { state = or_old (f entry.state) entry.state; last_access = w.now })
        s.store.buckets,
  )
  Step-Inv s _ (deletes k e h) v = ground (arith, h, length-without k e s.store.buckets h)
  Step-Inv s _ closes v = ground arith

  Reach-Inv : (s t : System) → Reach s t → Inv s → Inv t
  Reach-Inv s _ here v = v
  Reach-Inv s u (next {t = t} r st) v = Step-Inv t u st (Reach-Inv s t r v)

  option-empty :
      (o : MemoryStoreOption) (m : MemoryStore)
      → m.buckets ≡ []
      → m.key_count ≡ 0
      → ((apply_option o m).buckets ≡ []) × ((apply_option o m).key_count ≡ 0)
  unfolding apply_option
  option-empty o m b c = ground (arith, b, c)

  options-empty :
      (opts : List MemoryStoreOption) (m : MemoryStore)
      → m.buckets ≡ []
      → m.key_count ≡ 0
      → ((apply_options opts m).buckets ≡ []) × ((apply_options opts m).key_count ≡ 0)
  options-empty [] m b c = (b, c)
  options-empty (o ∷ opts) m b c =
      let (b', c') = option-empty o m b c in options-empty opts (apply_option o m) b' c'

  init-Inv : (opts : List MemoryStoreOption) → Inv (init opts)
  unfolding new_memory_store_with_options
  init-Inv opts = ground (arith, options-empty opts default_store refl refl)

  -- In every state that goroutines reach on a new store, in any interleaving of their atomic steps,
  -- the store holds maxKeys keys at most, and keyCount is the number of keys and of the goroutines
  -- that have still to store a key or to take one off the count; so it is the number of keys whenever
  -- none is on its way.
  pub keys_counted :
      (opts : List MemoryStoreOption) (s : System)
      → Reach (init opts) s
      → (length s.store.buckets ≤ s.store.max_keys)
        × (s.store.key_count ≡ length s.store.buckets + s.granted + s.owing)
  keys_counted opts s r =
      let v = Reach-Inv (init opts) s r (init-Inv opts) in (omega (arith, v.bounded), v.counted)
