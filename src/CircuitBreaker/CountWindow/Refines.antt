-- ===== src/CircuitBreaker/CountWindow/Refines.antt =====
-- countWindow of circuitbreaker/window.go against its specification: the history of all outcomes,
-- newest first, of which the window keeps the first `size`.
use fortify.Base.{
  ℕ, zero, suc, ◌+◌, ◌-◌, ◌≤◌, ◌<◌, ◌%◌, ◌≡◌, ◌≢◌, ◌⊎◌, inl, inr, refl, sym, ap, subst, ◌∙◌, Bool,
  true, false, not, Option, none, some, List, [], ◌∷◌, arith, ltb, if◌then◌else◌, min, length,
  get_or, take, replicate, length-set, Bool-cases, ltb→lt, get_or-set_self, get_or-set_ne,
  length-replicate,
}
use fortify.CircuitBreaker.CountWindow.{CountWindow, new_count_window, record_call, stats, reset}

-- How many entries are failures.
abbrev pub count_failures : List Bool → ℕ
count_failures [] = 0
count_failures (true ∷ h) = suc (count_failures h)
count_failures (false ∷ h) = count_failures h

abbrev pub flag : Bool → ℕ
flag true = 1
flag false = 0

-- The position in the ring of the outcome recorded i calls ago.
abbrev pub back : ℕ → ℕ → ℕ → ℕ
back size next i = if ltb i next then next - i - 1 else next + size - i - 1

pub record Refines (h : List Bool) (w : CountWindow) : Type 0 where
  pub room : length w.outcomes ≡ w.size
  pub in_range : w.next < w.size
  pub kept : w.filled ≡ min w.size (length h)
  pub counted : w.failures ≡ count_failures (take w.size h)
  pub held :
      (i : ℕ) → i < w.filled → get_or w.outcomes (back w.size w.next i) false ≡ get_or h i false

next_cases :
    (n s : ℕ) → n < s → ((n + 1) % s ≡ n + 1) × (n + 1 < s) ⊎ ((n + 1) % s ≡ 0) × (n + 1 ≡ s)
next_cases n s h = grind arith

count_failures-take-suc :
    (n : ℕ) (h : List Bool)
    → n < length h
    → count_failures (take (suc n) h) ≡ count_failures (take n h) + flag (get_or h n false)
count_failures-take-suc zero [] k = elim k [ ]
count_failures-take-suc zero (x ∷ h) k = ground arith
count_failures-take-suc (suc n) [] k = elim k [ ]
count_failures-take-suc (suc n) (true ∷ h) k = omega (arith, count_failures-take-suc n h)
count_failures-take-suc (suc n) (false ∷ h) k = omega (arith, count_failures-take-suc n h)

take_all : (n : ℕ) (h : List Bool) → length h ≤ n → take n h ≡ h
take_all zero [] k = refl
take_all zero (x ∷ h) k = elim k [ ]
take_all (suc n) [] k = refl
take_all (suc n) (x ∷ h) k = ap (λ t. x ∷ t) (take_all n h (omega arith))

back_zero : (n s : ℕ) → n < s → back s ((n + 1) % s) 0 ≡ n
back_zero n s h = ground (arith, next_cases n s h)

back-suc : (n s i : ℕ) → n < s → suc i < s → back s ((n + 1) % s) (suc i) ≡ back s n i
back-suc n s i h k = ground (arith, next_cases n s h)

back_ne : (n s i : ℕ) → n < s → suc i < s → n ≢ back s n i
back_ne n s i h k = ground arith

back_last : (n s : ℕ) → n < s → back s n (s - 1) ≡ n
back_last n s h = ground arith

-- What leaves the window when an outcome enters it: nothing while it fills, then the oldest.
evicts :
    (m : ℕ) (h : List Bool) (b : Bool)
    → count_failures (take (suc m) (b ∷ h))
        + (if ltb m (length h) then flag (get_or h m false) else 0)
      ≡ flag b + count_failures (take (suc m) h)
evicts m h b = elim (Bool-cases (ltb m (length h))) [
  | inl y ↦ rw y (ground (arith, count_failures-take-suc m h (ltb→lt _ _ y)))
  | inr n ↦ rw (n, take_all m h (ground arith), take_all (suc m) h (ground arith)) (ground arith)
]

module _ (success : Bool) (h : List Bool) (w : CountWindow) (r : Refines h w) where
  record_call-held :
      (i : ℕ)
      → i < (record_call success w).filled
      → get_or (record_call success w).outcomes (back w.size (record_call success w).next i) false
        ≡ get_or (not success ∷ h) i false
  unfolding record_call
  record_call-held zero k =
      rw (back_zero w.next w.size r.in_range)
        (get_or-set_self w.outcomes w.next (not success) false (omega (arith, r.room, r.in_range)))
  record_call-held (suc i) k = rw (back-suc w.next w.size i r.in_range (ground (arith, r.kept))) (
      get_or-set_ne w.outcomes w.next (back w.size w.next i) (not success) false
        (back_ne w.next w.size i r.in_range (ground (arith, r.kept)))
      ∙ r.held i (ground (arith, r.kept)))

  record_call-counted :
      (m : ℕ)
      → w.size ≡ suc m
      → (record_call success w).failures ≡ count_failures (take (suc m) (not success ∷ h))
  unfolding record_call
  record_call-counted m e = ground (
    arith,
    evicts m h (not success),
    r.held m,
    back_last w.next w.size r.in_range,
    r.counted,
    r.kept,
  )

-- One call of record moves the window from a history to the history with the new outcome in front.
pub record_call-Refines :
    (success : Bool) (h : List Bool) (w : CountWindow)
    → Refines h w
    → Refines (not success ∷ h) (record_call success w)
unfolding record_call
record_call-Refines success h w r =
    let e : w.size ≡ suc (w.size - 1) = omega (arith, r.in_range) in
    record {
      room = length-set w.outcomes w.next (not success) ∙ r.room;
      in_range = ground (arith, next_cases w.next w.size r.in_range, r.in_range);
      kept = ground (arith, r.kept);
      counted =
          subst (λ s. (record_call success w).failures ≡ count_failures (take s (not success ∷ h)))
            (sym e) (record_call-counted success h w r (w.size - 1) e);
      held = record_call-held success h w r;
    }

-- A window without outcomes, whatever its buffer holds.
empty-Refines :
    (outcomes : List Bool) (size : ℕ)
    → 0 < size
    → length outcomes ≡ size
    → Refines [] (record { outcomes = outcomes; size = size; next = 0; filled = 0; failures = 0 })
empty-Refines outcomes size h e = record {
  room = e;
  in_range = h;
  kept = omega arith;
  counted = rw (take_all size [] (omega arith));
  held = λ i k. elim k [ ];
}

pub reset-Refines : (h : List Bool) (w : CountWindow) → Refines h w → Refines [] (reset w)
unfolding reset
reset-Refines h w r =
    empty-Refines (replicate (length w.outcomes) false) w.size (omega (arith, r.in_range))
      (length-replicate (length w.outcomes) false ∙ r.room)

pub new_count_window-Refines : (size : ℕ) → 0 < size → Refines [] (new_count_window size)
unfolding new_count_window
new_count_window-Refines size h =
    empty-Refines (replicate size false) size h (length-replicate size false)

-- The calls made on a window, newest first: record(success), or reset for none.
abbrev pub replay : ℕ → List (Option Bool) → CountWindow
replay size [] = new_count_window size
replay size (some success ∷ older) = record_call success (replay size older)
replay size (none ∷ older) = reset (replay size older)

-- The outcomes since the last reset, newest first; true is a failure.
abbrev pub history : List (Option Bool) → List Bool
history [] = []
history (some success ∷ older) = not success ∷ history older
history (none ∷ older) = []

replay-Refines :
    (size : ℕ) (calls : List (Option Bool)) → 0 < size → Refines (history calls) (replay size calls)
replay-Refines size [] h = new_count_window-Refines size h
replay-Refines size (some success ∷ older) h =
    record_call-Refines success (history older) (replay size older) (replay-Refines size older h)
replay-Refines size (none ∷ older) h =
    reset-Refines (history older) (replay size older) (replay-Refines size older h)

replay-size : (size : ℕ) (calls : List (Option Bool)) → (replay size calls).size ≡ size
unfolding new_count_window record_call reset
replay-size size [] = refl
replay-size size (some success ∷ older) = replay-size size older
replay-size size (none ∷ older) = replay-size size older

-- After any calls of record and reset on a new window of a positive size, stats gives the number of
-- outcomes since the last reset, `size` at most, and how many of those latest `size` outcomes are
-- failures.
pub stats-replay :
    (size : ℕ) (calls : List (Option Bool))
    → 0 < size
    → stats (replay size calls)
      ≡ (min size (length (history calls)), count_failures (take size (history calls)))
unfolding stats
stats-replay size calls h =
    let r = replay-Refines size calls h in
    let e = replay-size size calls in
    λ i. (
      (r.kept ∙ ap (λ s. min s (length (history calls))) e) i,
      (r.counted ∙ ap (λ s. count_failures (take s (history calls))) e) i,
    )
