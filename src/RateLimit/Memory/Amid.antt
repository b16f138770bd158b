-- ===== src/RateLimit/Memory/Amid.antt =====
-- AtomicUpdate of a MemoryStore (ratelimit/memory.go) with calls of others between its load and its lock.
use fortify.Base.{
  ◌≡◌, ◌≢◌, sym, ap, ◌∙◌, false, Option, none, some, List, [], ◌∷◌, arith, Float64, Option-cases,
  inl, inr,
}
use fortify.RateLimit.Errors.{Key, LimitError, err_key_limit_exceeded, same_key}
use fortify.RateLimit.Bucket.{BucketState}
use fortify.RateLimit.Store.{Visit, or_old}
use fortify.RateLimit.Memory.{
  BucketEntry, MemoryStore, lookup, replace, guard, entry_for, reserve, release, load_or_store,
  update_locked, atomic_update, atomic_update_amid, peek,
}
use fortify.RateLimit.Memory.Atomic.{entry_for-Found, locked-reads, locked-others, peek-held}
use fortify.RateLimit.Memory.RoundTrip.{Update, run_updates}

module _ {ℓ} {A : Type ℓ} where
  replace_present :
      (k j : Key) (a : A) (l : List (Key × A)) → lookup k l ≢ none → lookup k (replace j a l) ≢ none
  unfolding lookup replace
  replace_present k j a [] h = h
  replace_present k j a ((i, b) ∷ rest) h = ground (arith, h, replace_present k j a rest)

impossible_error : (e : LimitError) → some e ≡ none → ⊥
impossible_error e h = ground (arith, h)

module _ ⦃fl : Float64⦄ where
  locked_present :
      (v : Visit) (j : Key) (f : Option BucketState → Option BucketState) (e : BucketEntry)
      (m : MemoryStore) (k : Key)
      → lookup k m.buckets ≢ none
      → lookup k (update_locked v j f e m).store.buckets ≢ none
  unfolding update_locked
  locked_present v j f e m k h = ground (
    arith,
    h,
    replace_present k j (record { state = or_old (f e.state) e.state; last_access = v.now })
        m.buckets h,
  )

  entry_present :
      (j : Key) (v : Visit) (m : MemoryStore) (k : Key)
      → lookup k m.buckets ≢ none
      → lookup k (entry_for j v.now m).0.buckets ≢ none
  unfolding entry_for reserve release load_or_store lookup
  entry_present j v m k h = ground (arith, h)

  update_present :
      (v : Visit) (j : Key) (f : Option BucketState → Option BucketState) (m : MemoryStore)
      (k : Key)
      → lookup k m.buckets ≢ none
      → lookup k (atomic_update v j f m).store.buckets ≢ none
  unfolding atomic_update
  update_present v j f m k h = elim (Option-cases (entry_for j v.now m).1) [
    | inl full ↦ ground (arith, h, full, entry_present j v m k h)
    | inr (e, found) ↦
        let there = entry_present j v m k h in
        ground (arith, h, found, locked_present v j f e (entry_for j v.now m).0 k there)
  ]

  updates_present :
      (us : List Update) (m : MemoryStore) (k : Key)
      → lookup k m.buckets ≢ none
      → lookup k (run_updates us m).buckets ≢ none
  updates_present [] m k h = h
  updates_present (u ∷ us) m k h =
      updates_present us (atomic_update u.visit u.key u.update m).store k
        (update_present u.visit u.key u.update m k h)

  module _ (v : Visit) (k : Key) (f : Option BucketState → Option BucketState)
      (m : MemoryStore) where
    abbrev loaded : MemoryStore
    loaded = (entry_for k v.now m).0

    -- An update without an error has found an entry.
    amid_found :
        (others : MemoryStore → MemoryStore)
        → (atomic_update_amid others v k f m).err ≡ none
        → (guard v.ctx k m ≡ none)
          × ((entry : BucketEntry) × ((entry_for k v.now m).1 ≡ some entry))
    unfolding atomic_update_amid
    amid_found others h = elim (Option-cases (guard v.ctx k m)) [
      | inr (e, refused) ↦ elim (impossible_error e (sym (ground (arith, refused)) ∙ h)) [ ]
      | inl admitted ↦ elim (Option-cases (entry_for k v.now m).1) [
        | inl full ↦
            elim (impossible_error err_key_limit_exceeded
              (sym (ground (arith, admitted, full)) ∙ h)) [ ]
        | inr (entry, found) ↦ (admitted, (entry, found))
      ]
    ]

    amid-locked :
        (others : MemoryStore → MemoryStore) (entry current : BucketEntry)
        → guard v.ctx k m ≡ none
        → (entry_for k v.now m).1 ≡ some entry
        → lookup k (others loaded).buckets ≡ some current
        → atomic_update_amid others v k f m ≡ update_locked v k f current (others loaded)
    unfolding atomic_update_amid
    amid-locked others entry current g e l = ground (arith, g, e, l)

  -- When calls of AtomicUpdate for any keys run between the load and the lock of a call of AtomicUpdate
  -- that has no error, that call gives updateFn the bucket of its key as they have left it, and keeps
  -- what updateFn returns, or that bucket if it is nil; the other keys stay as they have left them. They
  -- have run on the buckets that the call found.
  pub update_amid :
      (us : List Update) (v : Visit) (k : Key) (f : Option BucketState → Option BucketState)
      (m : MemoryStore)
      → (atomic_update_amid (run_updates us) v k f m).err ≡ none
      → let found = (entry_for k v.now m).0 in
        let before = run_updates us found in
        let out = atomic_update_amid (run_updates us) v k f m in
        (peek found k ≡ peek m k)
        × (out.seen ≡ some (peek before k))
        × (peek out.store k ≡ or_old (f (peek before k)) (peek before k))
        × ((j : Key) → same_key k j ≡ false → peek out.store j ≡ peek before j)
  update_amid us v k f m h =
      let (admitted, (entry, found)) = amid_found v k f m (run_updates us) h in
      let s = entry_for-Found k v.now m entry found in
      let m' = (entry_for k v.now m).0 in
      let before = run_updates us m' in
      let there = updates_present us m' k (λ z. ground (arith, s.held, z)) in
      elim (Option-cases (lookup k before.buckets)) [
        | inl gone ↦ elim (there gone) [ ]
        | inr (current, held) ↦
            let same = amid-locked v k f m (run_updates us) entry current admitted found held in
            let bucket = peek-held k current before held in
            let fine = sym (ap (λ u. u.err) same) ∙ h in
            let (saw, wrote) = locked-reads v k f current before held fine in
            (
              peek-held k entry m' s.held ∙ s.same,
              ap (λ u. u.seen) same ∙ saw ∙ ap some (sym bucket),
              ap (λ u. peek u.store k) same ∙ wrote ∙ ap (λ b. or_old (f b) b) (sym bucket),
              λ j e. ap (λ u. peek u.store j) same ∙ locked-others v k f current before j e,
            )
      ]
