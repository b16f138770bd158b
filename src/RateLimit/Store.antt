-- ===== src/RateLimit/Store.antt =====
-- The interface Store of ratelimit/store.go, with its state made explicit.
use fortify.Base.{ℕ, false, Option, none, some, Float64, ◌≡◌, ◌≢◌}
use fortify.Ferrors.{Error}
use fortify.RateLimit.Errors.{Key, Context, LimitError, same_key}
use fortify.RateLimit.Bucket.{BucketState}

-- What a call of the store meets: its context, the error of that context once more after the lock
-- is taken, and the clock.
pub record Visit : Type 0 where
  pub ctx : Context
  pub err_locked : Option Error
  pub now : ℕ

module _ ⦃fl : Float64⦄ where
  -- What AtomicUpdate leaves and returns. `seen` is the argument of the last call of updateFn, if it
  -- was called.
  pub record Updated (S : Type 0) : Type 0 where
    pub store : S
    pub err : Option LimitError
    pub seen : Option (Option BucketState)

  -- `peek` is the bucket that the store holds for a key.
  pub record Store : Type 1 where
    pub State : Type 0
    pub peek : State → Key → Option BucketState
    pub atomic_update :
        Visit → Key → (Option BucketState → Option BucketState) → State → Updated State
    pub get : Visit → Key → State → Option BucketState × Option LimitError

  -- A nil result of updateFn keeps the old state.
  abbrev pub or_old : Option BucketState → Option BucketState → Option BucketState
  or_old none old = old
  or_old (some s) old = some s

  -- What the interface promises of calls one after the other: an update without an error applies updateFn to the bucket of its
  -- key and keeps the result, an update with an error keeps the bucket, and the other keys are left
  -- alone.
  pub record IsAtomic (S : Store) : Type 0 where
    pub reads :
        (v : Visit) (k : Key) (f : Option BucketState → Option BucketState) (s : S.State)
        → (S.atomic_update v k f s).err ≡ none
        → (S.atomic_update v k f s).seen ≡ some (S.peek s k)
    pub writes :
        (v : Visit) (k : Key) (f : Option BucketState → Option BucketState) (s : S.State)
        → (S.atomic_update v k f s).err ≡ none
        → S.peek (S.atomic_update v k f s).store k ≡ or_old (f (S.peek s k)) (S.peek s k)
    pub fails :
        (v : Visit) (k : Key) (f : Option BucketState → Option BucketState) (s : S.State)
        → (S.atomic_update v k f s).err ≢ none
        → S.peek (S.atomic_update v k f s).store k ≡ S.peek s k
    pub others :
        (v : Visit) (k j : Key) (f : Option BucketState → Option BucketState) (s : S.State)
        → same_key k j ≡ false
        → S.peek (S.atomic_update v k f s).store j ≡ S.peek s j
