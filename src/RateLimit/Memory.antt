-- ===== src/RateLimit/Memory.antt =====
-- MemoryStore of ratelimit/memory.go. The sync.Map is an association list; the mutex of an entry
-- makes the work on it one step. A function whose comment names an atomic operation is one step among
-- the goroutines; AtomicUpdate and the others are given as they run when no other goroutine comes in
-- between, and AtomicUpdate also with calls of others between its load and its lock.
pub mod Atomic
pub mod RoundTrip
pub mod Count
pub mod Amid
use fortify.Base.{
  ℕ, ◌+◌, ◌-◌, Bool, true, false, ◌||◌, if◌then◌else◌, ltb, length, Option, none, some, List, [],
  ◌∷◌, Float64, ℤ, pos, is_pos, pos_part,
}
use fortify.Ferrors.{Error}
use fortify.RateLimit.Errors.{
  Key, Context, LimitError, err_store_closed, err_key_limit_exceeded, err_key_too_long,
  context_error, same_key,
}
use fortify.RateLimit.Bucket.{BucketState}
use fortify.RateLimit.Store.{Visit, Updated, Store, or_old}

abbrev pub default_max_keys : ℕ
default_max_keys = 100000

-- 1 min and 1 h.
abbrev pub default_cleanup_interval : ℤ
default_cleanup_interval = pos 60000000000

abbrev pub default_entry_ttl : ℕ
default_entry_ttl = 3600000000000

abbrev pub default_max_key_length : ℕ
default_max_key_length = 1024

pub data MemoryStoreOption : Type 0 where
  with_max_keys with_cleanup_interval with_entry_ttl with_max_key_length : ℤ → MemoryStoreOption

module _ {ℓ} {A : Type ℓ} where
  unfoldable pub lookup : Key → List (Key × A) → Option A
  lookup k [] = none
  lookup k ((j, a) ∷ rest) = if same_key j k then some a else lookup k rest

  -- `Store` on a sync.Map, for a key that it holds.
  unfoldable pub replace : Key → A → List (Key × A) → List (Key × A)
  replace k a [] = []
  replace k a ((j, b) ∷ rest) = if same_key j k then (j, a) ∷ rest else (j, b) ∷ replace k a rest

  unfoldable pub without : Key → List (Key × A) → List (Key × A)
  without k [] = []
  without k ((j, b) ∷ rest) = if same_key j k then rest else (j, b) ∷ without k rest

module _ ⦃fl : Float64⦄ where
  pub record BucketEntry : Type 0 where
    pub state : Option BucketState
    pub last_access : ℕ

  -- maxKeys, maxKeyLength and entryTTL are positive (the options see to it); keyCount is never
  -- negative (Count).
  pub record MemoryStore : Type 0 where
    pub buckets : List (Key × BucketEntry)
    pub key_count : ℕ
    pub closed : Bool
    pub max_keys : ℕ
    pub max_key_length : ℕ
    pub cleanup_interval : ℤ
    pub entry_ttl : ℕ

  unfoldable pub apply_option : MemoryStoreOption → MemoryStore → MemoryStore
  apply_option (with_max_keys n) m = if is_pos n then record m { max_keys = pos_part n } else m
  apply_option (with_cleanup_interval d) m = record m { cleanup_interval = d }
  apply_option (with_entry_ttl d) m = if is_pos d then record m { entry_ttl = pos_part d } else m
  apply_option (with_max_key_length n) m =
      if is_pos n then record m { max_key_length = pos_part n } else m

  abbrev pub apply_options : List MemoryStoreOption → MemoryStore → MemoryStore
  apply_options [] m = m
  apply_options (o ∷ opts) m = apply_options opts (apply_option o m)

  abbrev pub default_store : MemoryStore
  default_store = record {
    buckets = [];
    key_count = 0;
    closed = false;
    max_keys = default_max_keys;
    max_key_length = default_max_key_length;
    cleanup_interval = default_cleanup_interval;
    entry_ttl = default_entry_ttl;
  }

  -- The cleanup goroutine, started if the interval is positive, makes steps of `cleanup`.
  unfoldable pub new_memory_store_with_options : List MemoryStoreOption → MemoryStore
  unfolding apply_option
  new_memory_store_with_options opts = apply_options opts default_store

  -- The guards that AtomicUpdate, Get and Delete begin with.
  unfoldable pub guard : Context → Key → MemoryStore → Option LimitError
  guard ctx k m = if m.closed then some err_store_closed else elim ctx.err [
    | some e ↦ some (context_error e)
    | none ↦ if ltb m.max_key_length (length k) then some err_key_too_long else none
  ]

  -- `m.keyCount.Add(1)`, and whether the new count is above the maximum.
  unfoldable pub reserve : MemoryStore → MemoryStore × Bool
  reserve m = (record m { key_count = m.key_count + 1 }, ltb m.max_keys (m.key_count + 1))

  -- `m.keyCount.Add(-1)`
  unfoldable pub release : MemoryStore → MemoryStore
  release m = record m { key_count = m.key_count - 1 }

  -- `m.buckets.LoadOrStore(key, newEntry)`: the entry, and whether it was there.
  unfoldable pub load_or_store : Key → ℕ → MemoryStore → MemoryStore × BucketEntry × Bool
  load_or_store k now m =
      let fresh : BucketEntry = record { state = none; last_access = now } in
      elim (lookup k m.buckets) [
        | some entry ↦ (m, entry, true)
        | none ↦ (record m { buckets = (k, fresh) ∷ m.buckets }, fresh, false)
      ]

  -- `m.buckets.LoadAndDelete(key)`: whether the key was there.
  unfoldable pub load_and_delete : Key → MemoryStore → MemoryStore × Bool
  load_and_delete k m = elim (lookup k m.buckets) [
    | some entry ↦ (record m { buckets = without k m.buckets }, true)
    | none ↦ (m, false)
  ]

  -- AtomicUpdate from the load to the entry, or none for ErrKeyLimitExceeded.
  unfoldable pub entry_for : Key → ℕ → MemoryStore → MemoryStore × Option BucketEntry
  unfolding reserve release load_or_store
  entry_for k now m = elim (lookup k m.buckets) [
    | some entry ↦ (m, some entry)
    | none ↦
        let (reserved, exceeded) = reserve m in
        let (stored, entry, exists) = load_or_store k now reserved in
        if exceeded
        then (release reserved, none)
        else if exists
        then (release stored, some entry)
        else (stored, some entry)
  ]

  -- AtomicUpdate with the entry's lock held.
  unfoldable pub update_locked :
      Visit
      → Key
      → (Option BucketState → Option BucketState)
      → BucketEntry
      → MemoryStore
      → Updated MemoryStore
  update_locked v k f entry m = elim v.err_locked [
    | some e ↦ record { store = m; err = some (context_error e); seen = none }
    | none ↦
        let written : BucketEntry = record {
          state = or_old (f entry.state) entry.state;
          last_access = v.now;
        } in
        record {
          store = record m { buckets = replace k written m.buckets };
          err = none;
          seen = some entry.state;
        }
  ]

  -- AtomicUpdate when no other goroutine changes the map between its load and its lock. An entry that
  -- cleanup, Delete or Reset removes there would take the update with it; that is not covered.
  unfoldable pub atomic_update :
      Visit → Key → (Option BucketState → Option BucketState) → MemoryStore → Updated MemoryStore
  unfolding guard entry_for update_locked
  atomic_update v k f m = elim (guard v.ctx k m) [
    | some e ↦ record { store = m; err = some e; seen = none }
    | none ↦
        let (m', found) = entry_for k v.now m in
        elim found [
          | none ↦ record { store = m'; err = some err_key_limit_exceeded; seen = none }
          | some entry ↦ update_locked v k f entry m'
        ]
  ]

  -- AtomicUpdate with calls of others between its load and its lock. The lock is that of the entry which
  -- it has loaded: others that are calls of AtomicUpdate have changed that entry in place, and
  -- if others have removed it, the update writes to it all the same, and not to the map. Others that
  -- remove it after a change, or store a new entry under its key after that, are left out.
  unfoldable pub atomic_update_amid :
      (MemoryStore → MemoryStore)
      → Visit
      → Key
      → (Option BucketState → Option BucketState)
      → MemoryStore
      → Updated MemoryStore
  unfolding guard entry_for update_locked
  atomic_update_amid others v k f m = elim (guard v.ctx k m) [
    | some e ↦ record { store = m; err = some e; seen = none }
    | none ↦
        let (m', found) = entry_for k v.now m in
        elim found [
          | none ↦ record { store = m'; err = some err_key_limit_exceeded; seen = none }
          | some entry ↦ elim (lookup k (others m').buckets) [
            | some current ↦ update_locked v k f current (others m')
            | none ↦ update_locked v k f entry (others m')
          ]
        ]
  ]

  unfoldable pub peek : MemoryStore → Key → Option BucketState
  peek m k = elim (lookup k m.buckets) [ some entry ↦ entry.state | none ↦ none ]

  unfoldable pub get : Visit → Key → MemoryStore → Option BucketState × Option LimitError
  unfolding guard peek
  get v k m = elim (guard v.ctx k m) [ some e ↦ (none, some e) | none ↦ (peek m k, none) ]

  -- LoadAndDelete, and `Add(-1)` if it deleted the key.
  unfoldable pub delete_key : Key → MemoryStore → MemoryStore
  unfolding load_and_delete release
  delete_key k m = let (m', deleted) = load_and_delete k m in if deleted then release m' else m'

  unfoldable pub delete : Visit → Key → MemoryStore → MemoryStore × Option LimitError
  unfolding guard delete_key
  delete v k m = elim (guard v.ctx k m) [ some e ↦ (m, some e) | none ↦ (delete_key k m, none) ]

  -- now-lastAccess > ttlNanos
  unfoldable pub expired : ℕ → MemoryStore → BucketEntry → Bool
  expired now m entry = ltb m.entry_ttl (now - entry.last_access)

  abbrev sweep : ℕ → List (Key × BucketEntry) → MemoryStore → MemoryStore
  sweep now [] m = m
  sweep now ((k, entry) ∷ rest) m =
      sweep now rest (if expired now m entry then delete_key k m else m)

  unfoldable pub cleanup : ℕ → MemoryStore → MemoryStore
  unfolding expired delete_key
  cleanup now m = sweep now m.buckets m

  -- Reset after its guards. `errs` is what the context gives before each key.
  unfoldable pub reset_keys :
      (ℕ → Option Error)
      → ℕ
      → List (Key × BucketEntry)
      → MemoryStore
      → MemoryStore × Option LimitError
  unfolding delete_key
  reset_keys errs i [] m = (m, none)
  reset_keys errs i ((k, entry) ∷ rest) m =
      let onwards = reset_keys errs (i + 1) rest (delete_key k m) in
      elim (errs i) [ some e ↦ (m, some (context_error e)) | none ↦ onwards ]

  unfoldable pub health_check : Context → MemoryStore → Option LimitError
  health_check ctx m =
      if m.closed
      then some err_store_closed
      else elim ctx.err [ some e ↦ some (context_error e) | none ↦ none ]

  unfoldable pub reset :
      Context → (ℕ → Option Error) → MemoryStore → MemoryStore × Option LimitError
  unfolding health_check reset_keys
  reset ctx errs m = elim (health_check ctx m) [
    | some e ↦ (m, some e)
    | none ↦ reset_keys errs 0 m.buckets m
  ]

  unfoldable pub close : MemoryStore → MemoryStore
  close m = record m { closed = true }

  unfoldable pub bucket_count : MemoryStore → ℕ
  bucket_count m = m.key_count

  abbrev pub memory_store : Store
  memory_store = record {
    State = MemoryStore;
    peek = peek;
    atomic_update = atomic_update;
    get = get;
  }
