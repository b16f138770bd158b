-- ===== src/CircuitBreaker/TimeWindow/Events.antt =====
-- The specification of timeWindow (circuitbreaker/window.go): recorded calls, and how many of them
-- lie in a second, at a ring position, and in the last `size` seconds.
use fortify.Base.{
  ℕ, suc, ◌+◌, ◌≤◌, ◌<◌, ◌%◌, ◌≡◌, refl, Bool, true, false, ◌&&◌, List, [], ◌∷◌, arith, ltb, leb,
  ◌==◌,
}
use native.Mathlib.Nat.{mod-lt}

-- A recorded call: its second and whether it failed.
pub record Event : Type 0 where
  pub second : ℕ
  pub failed : Bool

abbrev pub add_if : Bool → ℕ → ℕ
add_if true n = suc n
add_if false n = n

-- The calls, and the failures, of ring position j in the given second.
abbrev pub calls_at : ℕ → ℕ → ℕ → List Event → ℕ
calls_at size j epoch [] = 0
calls_at size j epoch (e ∷ h) =
    add_if (e.second % size == j && e.second == epoch) (calls_at size j epoch h)

abbrev pub failures_at : ℕ → ℕ → ℕ → List Event → ℕ
failures_at size j epoch [] = 0
failures_at size j epoch (e ∷ h) =
    add_if (e.failed && (e.second % size == j && e.second == epoch)) (failures_at size j epoch h)

-- The event lies in the last `size` seconds up to `second`.
abbrev pub recent : ℕ → ℕ → Event → Bool
recent size second e = ltb second (e.second + size) && leb e.second second

abbrev pub recent_calls : ℕ → ℕ → List Event → ℕ
recent_calls size second [] = 0
recent_calls size second (e ∷ h) = add_if (recent size second e) (recent_calls size second h)

abbrev pub recent_failures : ℕ → ℕ → List Event → ℕ
recent_failures size second [] = 0
recent_failures size second (e ∷ h) =
    add_if (e.failed && recent size second e) (recent_failures size second h)

-- The same, for the events of the ring positions from j on.
abbrev pub calls_from : ℕ → ℕ → ℕ → List Event → ℕ
calls_from j size second [] = 0
calls_from j size second (e ∷ h) =
    add_if (leb j (e.second % size) && recent size second e) (calls_from j size second h)

abbrev pub failures_from : ℕ → ℕ → ℕ → List Event → ℕ
failures_from j size second [] = 0
failures_from j size second (e ∷ h) =
    add_if (leb j (e.second % size) && (e.failed && recent size second e))
      (failures_from j size second h)

pub failures_at-le-calls_at :
    (size j epoch : ℕ) (h : List Event) → failures_at size j epoch h ≤ calls_at size j epoch h
failures_at-le-calls_at size j epoch [] = omega arith
failures_at-le-calls_at size j epoch (e ∷ h) =
    ground (arith, failures_at-le-calls_at size j epoch h)

pub none_from :
    (size second : ℕ) (h : List Event)
    → 0 < size
    → (calls_from size size second h ≡ 0) × (failures_from size size second h ≡ 0)
none_from size second [] p = (refl, refl)
none_from size second (e ∷ h) p = ground (arith, none_from size second h p, mod-lt e.second p)

pub all_from :
    (size second : ℕ) (h : List Event)
    → (calls_from 0 size second h ≡ recent_calls size second h)
      × (failures_from 0 size second h ≡ recent_failures size second h)
all_from size second [] = (refl, refl)
all_from size second (e ∷ h) = ground (arith, all_from size second h)
