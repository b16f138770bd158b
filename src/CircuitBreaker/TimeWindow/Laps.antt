-- ===== src/CircuitBreaker/TimeWindow/Laps.antt =====
-- The buckets of timeWindow (circuitbreaker/window.go), each against the calls of its position.
use fortify.Base.{
  ℕ, zero, suc, ◌+◌, ◌≤◌, ◌<◌, ◌%◌, ◌≡◌, ◌≢◌, inl, inr, refl, sym, ap, subst, List, [], ◌∷◌, arith,
  ltb, ◌==◌, if◌then◌else◌, Bool-cases, length, get_or, set,
}
use native.Mathlib.Nat.{div-add-mod}
use fortify.CircuitBreaker.TimeWindow.{TimeBucket, zero_bucket, bucket_index, refresh, sum_stats}
use fortify.CircuitBreaker.TimeWindow.Events.{
  Event, calls_at, failures_at, calls_from, failures_from, failures_at-le-calls_at, none_from,
}

-- The events of position j are not later than the epoch of its bucket, and are none if the epoch
-- belongs to another position.
abbrev pub Latest : ℕ → ℕ → ℕ → List Event → Type 0
Latest size j epoch [] = Unit
Latest size j epoch (e ∷ h) =
    (e.second % size ≡ j → (e.second ≤ epoch) × (epoch % size ≡ j)) × Latest size j epoch h

pub record Lap (size j now : ℕ) (h : List Event) (b : TimeBucket) : Type 0 where
  pub calls : b.calls ≡ calls_at size j b.epoch h
  pub failures : b.failures ≡ failures_at size j b.epoch h
  pub latest : Latest size j b.epoch h
  pub past : b.epoch ≤ now

abbrev pub AllLaps : ℕ → ℕ → ℕ → List Event → List TimeBucket → Type 0
AllLaps size j now h [] = Unit
AllLaps size j now h (b ∷ bs) = Lap size j now h b × AllLaps size (suc j) now h bs

same_lap : (s e p : ℕ) → 0 < s → e ≤ p → p < e + s → e % s ≡ p % s → e ≡ p
same_lap s e p h k l m = grind (arith, div-add-mod)

pub bucket_index-mod : (epoch size : ℕ) → 0 < size → bucket_index epoch size ≡ epoch % size
unfolding bucket_index
bucket_index-mod epoch size h = grind arith

module _ (size second j now : ℕ) (pos : 0 < size) (le : now ≤ second) where
  bucket_calls :
      (epoch : ℕ) (h : List Event)
      → epoch ≤ now
      → Latest size j epoch h
      → calls_from j size second h
        ≡ (if ltb second (epoch + size) then calls_at size j epoch h else 0)
          + calls_from (suc j) size second h
  bucket_calls epoch [] p l = ground arith
  bucket_calls epoch (e ∷ h) p l =
      ground (arith, bucket_calls epoch h p l.1, same_lap size e.second epoch pos, l.0)

  bucket_failures :
      (epoch : ℕ) (h : List Event)
      → epoch ≤ now
      → Latest size j epoch h
      → failures_from j size second h
        ≡ (if ltb second (epoch + size) then failures_at size j epoch h else 0)
          + failures_from (suc j) size second h
  bucket_failures epoch [] p l = ground arith
  bucket_failures epoch (e ∷ h) p l =
      ground (arith, bucket_failures epoch h p l.1, same_lap size e.second epoch pos, l.0)

module _ (size second now : ℕ) (pos : 0 < size) (le : now ≤ second) where
  pub sum_stats-from :
      (j : ℕ) (h : List Event) (bs : List TimeBucket)
      → j + length bs ≡ size
      → AllLaps size j now h bs
      → sum_stats second size bs ≡ (calls_from j size second h, failures_from j size second h)
  unfolding sum_stats
  sum_stats-from j h [] e l = let (c, f) = none_from size second h pos in ground (arith, c, f)
  sum_stats-from j h (b ∷ bs) e (lap, l) =
      let ih = sum_stats-from (suc j) h bs (omega arith) l in
      ground (
        arith,
        ih,
        bucket_calls size second j now pos le b.epoch h lap.past lap.latest,
        bucket_failures size second j now pos le b.epoch h lap.past lap.latest,
        failures_at-le-calls_at size j b.epoch h,
      )

-- A call in a second that no earlier one is later than.
module _ (size now : ℕ) (e : Event) (h : List Event) (pos : 0 < size) (le : now ≤ e.second) where
  Lap-other :
      (j : ℕ) (b : TimeBucket)
      → e.second % size ≢ j
      → Lap size j now h b
      → Lap size j e.second (e ∷ h) b
  Lap-other j b ne l = record {
    calls = ground (arith, l.calls);
    failures = ground (arith, l.failures);
    latest = (λ x. absurd (ne x), l.latest);
    past = omega (arith, l.past);
  }

  AllLaps-other :
      (j : ℕ) (bs : List TimeBucket)
      → e.second % size < j
      → AllLaps size j now h bs
      → AllLaps size j e.second (e ∷ h) bs
  AllLaps-other j [] k l = tt
  AllLaps-other j (b ∷ bs) k (lap, l) =
      (Lap-other j b (omega arith) lap, AllLaps-other (suc j) bs (omega arith) l)

no_later :
    (size j epoch second : ℕ) (h : List Event)
    → epoch < second
    → Latest size j epoch h
    → (calls_at size j second h ≡ 0) × (failures_at size j second h ≡ 0)
no_later size j epoch second [] k l = (refl, refl)
no_later size j epoch second (e ∷ h) k l = ground (arith, no_later size j epoch second h k l.1, l.0)

Latest-refresh :
    (size second epoch : ℕ) (h : List Event)
    → epoch ≤ second
    → Latest size (second % size) epoch h
    → Latest size (second % size) second h
Latest-refresh size second epoch [] p l = tt
Latest-refresh size second epoch (e ∷ h) p l =
    (λ x. (omega (arith, l.0 x), refl), Latest-refresh size second epoch h p l.1)

refresh-epoch : (second : ℕ) (b : TimeBucket) → (refresh second b).epoch ≡ second
unfolding refresh
refresh-epoch second b = ground arith

module _ (size now : ℕ) (e : Event) (h : List Event) (pos : 0 < size) (le : now ≤ e.second) where
  Lap-refresh :
      (b : TimeBucket)
      → Lap size (e.second % size) now h b
      → Lap size (e.second % size) e.second h (refresh e.second b)
  unfolding refresh
  Lap-refresh b l = elim (Bool-cases (b.epoch == e.second)) [
    | inl y ↦ rw y (record {
      calls = l.calls;
      failures = l.failures;
      latest = l.latest;
      past = omega (arith, l.past);
    })
    | inr n ↦
        let (c, f) =
          no_later size (e.second % size) b.epoch e.second h (ground (arith, l.past)) l.latest in
        rw n (record {
          calls = sym c;
          failures = sym f;
          latest = Latest-refresh size e.second b.epoch h (omega (arith, l.past)) l.latest;
          past = omega arith;
        })
  ]

  -- The bucket with one call more.
  abbrev pub bump : TimeBucket → TimeBucket
  bump b = record b {
    calls = b.calls + 1;
    failures = if e.failed then b.failures + 1 else b.failures;
  }

  Lap-bump :
      (b : TimeBucket)
      → b.epoch ≡ e.second
      → Lap size (e.second % size) e.second h b
      → Lap size (e.second % size) e.second (e ∷ h) (bump b)
  Lap-bump b same l = record {
    calls = ground (arith, l.calls);
    failures = ground (arith, l.failures);
    latest = (λ x. (omega arith, ap (λ s. s % size) same), l.latest);
    past = l.past;
  }

  pub AllLaps-recorded :
      (i j : ℕ) (bs : List TimeBucket)
      → i < length bs
      → j + i ≡ e.second % size
      → AllLaps size j now h bs
      → AllLaps size j e.second
          (e ∷ h)
          (set bs i (bump (refresh e.second (get_or bs i zero_bucket))))
  AllLaps-recorded i j [] k p l = elim k [ ]
  AllLaps-recorded zero j (b ∷ bs) k p (lap, l) =
      let q : j ≡ e.second % size = omega arith in
      let lap' = subst (λ x. Lap size x now h b) q lap in
      (
        subst (λ x. Lap size x e.second (e ∷ h) (bump (refresh e.second b))) (sym q)
            (Lap-bump (refresh e.second b) (refresh-epoch e.second b) (Lap-refresh b lap')),
        AllLaps-other size now e h pos le (suc j) bs (omega arith) l,
      )
  AllLaps-recorded (suc i) j (b ∷ bs) k p (lap, l) = (
    Lap-other size now e h pos le j b (omega arith) lap,
    AllLaps-recorded i (suc j) bs (omega arith) (omega arith) l,
  )
