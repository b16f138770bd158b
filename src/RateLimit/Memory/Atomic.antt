-- ===== src/RateLimit/Memory/Atomic.antt =====
-- MemoryStore (ratelimit/memory.go) keeps the promises of the interface Store.
use fortify.Base.{
  ℕ, ◌≡◌, ◌≢◌, refl, true, false, Option, none, some, List, [], ◌∷◌, arith, Float64, Option-cases,
  inl, inr,
}
use fortify.RateLimit.Errors.{Key, same_key}
use fortify.RateLimit.Bucket.{BucketState}
use fortify.RateLimit.Store.{Visit, IsAtomic, or_old}
use fortify.RateLimit.Memory.{
  BucketEntry, MemoryStore, lookup, replace, guard, reserve, load_or_store, entry_for,
  update_locked, atomic_update, peek, memory_store,
}

pub same_key_refl : (k : Key) → same_key k k ≡ true
unfolding same_key
same_key_refl [] = refl
same_key_refl (x ∷ k) = ground (arith, same_key_refl k)

pub same_key-eq : (k j : Key) → same_key k j ≡ true → k ≡ j
unfolding same_key
same_key-eq [] [] h = refl
same_key-eq [] (y ∷ j) h = ground arith
same_key-eq (x ∷ k) [] h = ground arith
same_key-eq (x ∷ k) (y ∷ j) h = ground (arith, same_key-eq k j)

module _ {ℓ} {A : Type ℓ} where
  lookup-replace_self :
      (k : Key) (a b : A) (l : List (Key × A))
      → lookup k l ≡ some b
      → lookup k (replace k a l) ≡ some a
  unfolding lookup replace
  lookup-replace_self k a b [] h = ground arith
  lookup-replace_self k a b ((j, c) ∷ rest) h = ground (arith, lookup-replace_self k a b rest)

  lookup-replace_other :
      (k j : Key) (a : A) (l : List (Key × A))
      → same_key k j ≡ false
      → lookup j (replace k a l) ≡ lookup j l
  unfolding lookup replace
  lookup-replace_other k j a [] h = refl
  lookup-replace_other k j a ((i, c) ∷ rest) h =
      ground (arith, lookup-replace_other k j a rest h, same_key-eq i k)

module _ ⦃fl : Float64⦄ where
  -- Once an update has found its entry, the entry is in the store under its key, holds what the store
  -- held there, and the other keys are as they were.
  pub record Found (k : Key) (m m' : MemoryStore) (entry : BucketEntry) : Type 0 where
    pub held : lookup k m'.buckets ≡ some entry
    pub same : entry.state ≡ peek m k
    pub kept : (j : Key) → same_key k j ≡ false → peek m' j ≡ peek m j

  pub entry_for-Found :
      (k : Key) (now : ℕ) (m : MemoryStore) (entry : BucketEntry)
      → (entry_for k now m).1 ≡ some entry
      → Found k m (entry_for k now m).0 entry
  unfolding entry_for peek lookup reserve load_or_store
  entry_for-Found k now m entry h = elim (Option-cases (lookup k m.buckets)) [
    | inl absent ↦ record {
      held = ground (arith, absent, same_key_refl k);
      same = ground (arith, absent);
      kept = λ j e. ground (arith, absent);
    }
    | inr (e, found) ↦ record {
      held = ground (arith, found);
      same = ground (arith, found);
      kept = λ j e. ground (arith, found);
    }
  ]

  pub peek-held :
      (k : Key) (entry : BucketEntry) (m : MemoryStore)
      → lookup k m.buckets ≡ some entry
      → peek m k ≡ entry.state
  unfolding peek
  peek-held k entry m h = ground (arith, h)

  refused_keeps :
      (k : Key) (now : ℕ) (m : MemoryStore)
      → (entry_for k now m).1 ≡ none
      → (j : Key) → peek (entry_for k now m).0 j ≡ peek m j
  unfolding entry_for peek reserve
  refused_keeps k now m h j = elim (Option-cases (lookup k m.buckets)) [
    | inl absent ↦ ground (arith, absent)
    | inr (e, found) ↦ ground (arith, found)
  ]

  module _ (v : Visit) (k : Key) (f : Option BucketState → Option BucketState) where
    pub locked-reads :
        (entry : BucketEntry) (m : MemoryStore)
        → lookup k m.buckets ≡ some entry
        → (update_locked v k f entry m).err ≡ none
        → ((update_locked v k f entry m).seen ≡ some entry.state)
          × (peek (update_locked v k f entry m).store k ≡ or_old (f entry.state) entry.state)
    unfolding update_locked peek
    locked-reads entry m held h = ground (
      arith,
      lookup-replace_self k
          (record { state = or_old (f entry.state) entry.state; last_access = v.now }) entry
          m.buckets held,
    )

    pub locked-others :
        (entry : BucketEntry) (m : MemoryStore) (j : Key)
        → same_key k j ≡ false
        → peek (update_locked v k f entry m).store j ≡ peek m j
    unfolding update_locked peek
    locked-others entry m j e = ground (
      arith,
      lookup-replace_other k j
          (record { state = or_old (f entry.state) entry.state; last_access = v.now }) m.buckets e,
    )

    pub update-reads :
        (m : MemoryStore)
        → (atomic_update v k f m).err ≡ none
        → ((atomic_update v k f m).seen ≡ some (peek m k))
          × (peek (atomic_update v k f m).store k ≡ or_old (f (peek m k)) (peek m k))
    unfolding atomic_update
    update-reads m h = elim (Option-cases (guard v.ctx k m)) [
      | inr (e, refused) ↦ ground (arith, refused)
      | inl admitted ↦ elim (Option-cases (entry_for k v.now m).1) [
        | inl full ↦ ground (arith, admitted, full)
        | inr (entry, found) ↦
            let s = entry_for-Found k v.now m entry found in
            let m' = (entry_for k v.now m).0 in
            ground (arith, admitted, found, s.same, locked-reads entry m' s.held)
      ]
    ]

    update_fails :
        (m : MemoryStore)
        → (atomic_update v k f m).err ≢ none
        → peek (atomic_update v k f m).store k ≡ peek m k
    unfolding atomic_update update_locked
    update_fails m h = elim (Option-cases (guard v.ctx k m)) [
      | inr (e, refused) ↦ ground (arith, refused)
      | inl admitted ↦ elim (Option-cases (entry_for k v.now m).1) [
        | inl full ↦ ground (arith, admitted, full, refused_keeps k v.now m full k)
        | inr (entry, found) ↦
            let s = entry_for-Found k v.now m entry found in
            ground
              (arith, admitted, found, s.same, peek-held k entry (entry_for k v.now m).0 s.held)
      ]
    ]

    pub update-others :
        (m : MemoryStore) (j : Key)
        → same_key k j ≡ false
        → peek (atomic_update v k f m).store j ≡ peek m j
    unfolding atomic_update
    update-others m j e = elim (Option-cases (guard v.ctx k m)) [
      | inr (_, refused) ↦ ground (arith, refused)
      | inl admitted ↦ elim (Option-cases (entry_for k v.now m).1) [
        | inl full ↦ ground (arith, admitted, full, refused_keeps k v.now m full j)
        | inr (entry, found) ↦
            let s = entry_for-Found k v.now m entry found in
            let m' = (entry_for k v.now m).0 in
            ground (arith, admitted, found, s.kept j e, locked-others entry m' j e)
      ]
    ]

  -- The store in memory keeps the promises of the interface as far as calls of AtomicUpdate that do not
  -- overlap cleanup, Delete, Reset or another call: an update without an error gives updateFn the
  -- bucket of its key and keeps what that returns, or the old bucket if that is nil, an update with an
  -- error leaves that bucket as it is, and no update touches the bucket of another key. (When one of
  -- the three removes the entry between the load and the lock of an update, the update is lost.)
  pub memory_store-IsAtomic : IsAtomic memory_store
  memory_store-IsAtomic = record {
    reads = λ v k f m h. (update-reads v k f m h).0;
    writes = λ v k f m h. (update-reads v k f m h).1;
    fails = λ v k f m h. update_fails v k f m h;
    others = λ v k j f m e. update-others v k f m j e;
  }
