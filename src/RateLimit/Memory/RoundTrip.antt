-- ===== src/RateLimit/Memory/RoundTrip.antt =====
-- What a later call of Get or AtomicUpdate finds in a MemoryStore (ratelimit/memory.go).
use fortify.Base.{
  List, [], ◌∷◌, All, false, refl, ◌∙◌, ◌≡◌, Option, none, arith, Float64, Option-cases, inl, inr,
}
use fortify.RateLimit.Errors.{Key, Context, same_key}
use fortify.RateLimit.Bucket.{BucketState}
use fortify.RateLimit.Store.{Visit, or_old}
use fortify.RateLimit.Memory.{
  MemoryStore, lookup, guard, entry_for, reserve, release, load_or_store, update_locked,
  atomic_update, peek, get,
}
use fortify.RateLimit.Memory.Atomic.{update-reads, update-others}

module _ ⦃fl : Float64⦄ where
  guard_kept :
      (v w : Visit) (k : Key) (f : Option BucketState → Option BucketState) (m : MemoryStore)
      → (atomic_update v k f m).err ≡ none
      → w.ctx.err ≡ none
      → guard w.ctx k (atomic_update v k f m).store ≡ none
  unfolding guard atomic_update entry_for update_locked reserve release load_or_store
  guard_kept v w k f m h c = elim (Option-cases (lookup k m.buckets)) [
    | inl absent ↦ ground (arith, absent)
    | inr (e, found) ↦ ground (arith, found)
  ]

  -- A call of AtomicUpdate.
  pub record Update : Type 0 where
    pub visit : Visit
    pub key : Key
    pub update : Option BucketState → Option BucketState

  abbrev pub run_updates : List Update → MemoryStore → MemoryStore
  run_updates [] m = m
  run_updates (u ∷ us) m = run_updates us (atomic_update u.visit u.key u.update m).store

  abbrev pub Spares : Key → List Update → Type 0
  Spares k = All (λ (u : Update). same_key u.key k ≡ false)

  guard-after_update :
      (v : Visit) (j : Key) (f : Option BucketState → Option BucketState) (m : MemoryStore)
      (ctx : Context) (k : Key)
      → guard ctx k (atomic_update v j f m).store ≡ guard ctx k m
  unfolding guard atomic_update entry_for update_locked reserve release load_or_store
  guard-after_update v j f m ctx k = elim (Option-cases (lookup j m.buckets)) [
    | inl absent ↦ ground (arith, absent)
    | inr (e, found) ↦ ground (arith, found)
  ]

  get-run_updates :
      (us : List Update) (w : Visit) (k : Key) (m : MemoryStore)
      → Spares k us
      → get w k (run_updates us m) ≡ get w k m
  unfolding get
  get-run_updates [] w k m h = refl
  get-run_updates (u ∷ us) w k m (h, rest) =
      let m' = (atomic_update u.visit u.key u.update m).store in
      let same = update-others u.visit u.key u.update m k h in
      let guarded = guard-after_update u.visit u.key u.update m w.ctx k in
      get-run_updates us w k m' rest ∙ ground (arith, same, guarded)

  -- After an update without an error and then any calls of AtomicUpdate for other keys, one after the
  -- other, and with no cleanup, Delete, Reset or Close in between, Get with a live context returns the
  -- state that the update left.
  pub get-atomic_update :
      (v w : Visit) (k : Key) (f : Option BucketState → Option BucketState) (m : MemoryStore)
      (others : List Update)
      → (atomic_update v k f m).err ≡ none
      → w.ctx.err ≡ none
      → Spares k others
      → get w k (run_updates others (atomic_update v k f m).store)
        ≡ (or_old (f (peek m k)) (peek m k), none)
  unfolding get
  get-atomic_update v w k f m others h c s =
      let m' = (atomic_update v k f m).store in
      get-run_updates others w k m' s
      ∙ ground (arith, guard_kept v w k f m h c, (update-reads v k f m h).1)
