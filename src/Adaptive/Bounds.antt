-- ===== src/Adaptive/Bounds.antt =====
-- The limit and the in-flight counter of adaptive/adaptive.go over any interleaving of calls.
use fortify.Base.{
  ℕ, zero, suc, ◌+◌, ◌≡◌, refl, ◌≤◌, ◌<◌, Bool, true, false, Option, none, some, Float64, ℤ, pos,
  negsuc, ltb_ℤ, ltb→lt, int32, int32_exact, add_int64_exact, quot, arith, add_int64, if◌then◌else◌,
}
use fortify.Ferrors.{Error}
use fortify.Adaptive.Config.{algorithm_aimd, algorithm_vegas, algorithm_gradient2, other}
use fortify.Adaptive.Limiter.{
  Limiter, set_limit, aimd_on_success, vegas_adjust, vegas_on_success, gradient_target,
  gradient_adjust, gradient2_on_success, update_min, vegas_ema, gradient_ema, on_failure, complete,
  inc32, dec32,
}

-- x is a number from lo to hi.
abbrev pub InRange : ℕ → ℕ → ℤ → Type 0
InRange lo hi (pos n) = (lo ≤ n) × (n ≤ hi)
InRange lo hi (negsuc n) = ⊥

pub inc32_exact : (m : ℕ) → m + 1 < 2147483648 → inc32 (pos m) ≡ pos (m + 1)
unfolding inc32
inc32_exact m h = rw (add_int64_exact m 1 (omega arith)) (int32_exact (m + 1) h)

pub dec32_exact : (m : ℕ) → m < 2147483648 → dec32 (pos (suc m)) ≡ pos m
unfolding dec32 add_int64 int32
dec32_exact m h = ground arith

pub inc32-InRange :
    (lo hi : ℕ) (x high : ℤ)
    → InRange lo hi x
    → hi < 2147483648
    → high ≡ pos hi
    → ltb_ℤ x high ≡ true
    → InRange lo hi (inc32 x)
inc32-InRange lo hi (negsuc m) high r h e lt = elim r [ ]
inc32-InRange lo hi (pos m) high r h e lt =
    let below = ltb→lt m hi (ground (arith, e)) in
    rw (inc32_exact m (omega arith)) (omega arith, omega arith)

pub dec32-InRange :
    (lo hi : ℕ) (x low : ℤ)
    → InRange lo hi x
    → hi < 2147483648
    → low ≡ pos lo
    → ltb_ℤ low x ≡ true
    → InRange lo hi (dec32 x)
dec32-InRange lo hi (negsuc m) low r h e lt = elim r [ ]
dec32-InRange lo hi (pos zero) low r h e lt = ground arith
dec32-InRange lo hi (pos (suc m)) low r h e lt =
    let above = ltb→lt lo (suc m) (ground (arith, e)) in
    rw (dec32_exact m (omega arith)) (omega arith, omega arith)

-- Go's max(x, lo), then min of that and hi.
pub clamp-InRange :
    (lo hi : ℕ) (x low high : ℤ)
    → lo ≤ hi
    → low ≡ pos lo
    → high ≡ pos hi
    → let raised = if ltb_ℤ x low then low else x in
      InRange lo hi (if ltb_ℤ high raised then high else raised)
clamp-InRange lo hi (pos n) low high h e e' = rw (e, e') (ground arith)
clamp-InRange lo hi (negsuc n) low high h e e' = rw (e, e') (ground arith)

half-InRange :
    (lo hi : ℕ) (x low : ℤ)
    → InRange lo hi x
    → low ≡ pos lo
    → let half = quot x (pos 2) in InRange lo hi (if ltb_ℤ half low then low else half)
unfolding quot
half-InRange lo hi (negsuc n) low r e = elim r [ ]
half-InRange lo hi (pos n) low r e = rw e (ground arith)

module _ ⦃fl : Float64⦄ where
  -- The configured bounds are lo and hi, the limit lies between them, and there is no more in
  -- flight than hi.
  pub record Safe (lo hi : ℕ) (l : Limiter) : Type 0 where
    pub lowest : l.config.min_limit ≡ pos lo
    pub highest : l.config.max_limit ≡ pos hi
    pub ordered : lo ≤ hi
    pub narrow : hi < 2147483648
    pub limit : InRange lo hi l.limit
    pub in_flight : InRange 0 hi l.in_flight

  module _ (lo hi : ℕ) where
    -- Safe reads the configuration, the limit and the in-flight counter only.
    pub keep :
        (l l' : Limiter)
        → l'.config ≡ l.config
        → InRange lo hi l'.limit
        → InRange 0 hi l'.in_flight
        → Safe lo hi l
        → Safe lo hi l'
    keep l l' e limit in_flight s = record {
      lowest = rw e s.lowest;
      highest = rw e s.highest;
      ordered = s.ordered;
      narrow = s.narrow;
      limit = limit;
      in_flight = in_flight;
    }

    set_limit-Safe :
        (next : ℤ) (l : Limiter) → InRange lo hi next → Safe lo hi l → Safe lo hi (set_limit next l)
    unfolding set_limit
    set_limit-Safe next l r s = keep l (set_limit next l) refl r s.in_flight s

    if-Safe :
        (b : Bool) (l l' : Limiter)
        → (b ≡ true → Safe lo hi l)
        → (b ≡ false → Safe lo hi l')
        → Safe lo hi (if b then l else l')
    if-Safe true l l' s s' = s refl
    if-Safe false l l' s s' = s' refl

    -- The bounds as the code reads them.
    floor : (l : Limiter) → Safe lo hi l → int32 l.config.min_limit ≡ pos lo
    floor l s = rw s.lowest (int32_exact lo (omega (arith, s.ordered, s.narrow)))

    ceiling : (l : Limiter) → Safe lo hi l → int32 l.config.max_limit ≡ pos hi
    ceiling l s = rw s.highest (int32_exact hi s.narrow)

    raise-Safe :
        (l : Limiter)
        → Safe lo hi l
        → Safe lo hi
            (if ltb_ℤ l.limit (int32 l.config.max_limit) then set_limit (inc32 l.limit) l else l)
    raise-Safe l s =
        if-Safe (ltb_ℤ l.limit (int32 l.config.max_limit)) (set_limit (inc32 l.limit) l) l
          (λ lt.
            set_limit-Safe (inc32 l.limit) l
              (inc32-InRange lo hi l.limit _ s.limit s.narrow (ceiling l s) lt) s)
          (λ _. s)

    lower-Safe :
        (l : Limiter)
        → Safe lo hi l
        → Safe lo hi
            (if ltb_ℤ (int32 l.config.min_limit) l.limit then set_limit (dec32 l.limit) l else l)
    lower-Safe l s =
        if-Safe (ltb_ℤ (int32 l.config.min_limit) l.limit) (set_limit (dec32 l.limit) l) l
          (λ lt.
            set_limit-Safe (dec32 l.limit) l
              (dec32-InRange lo hi l.limit _ s.limit s.narrow (floor l s) lt) s)
          (λ _. s)

    on_failure-Safe : (l : Limiter) → Safe lo hi l → Safe lo hi (on_failure l)
    unfolding on_failure
    on_failure-Safe l s =
        let cleared = keep l (record l { successes = pos 0 }) refl s.limit s.in_flight s in
        if-Safe _ _ _
          (λ _. set_limit-Safe _ _ (half-InRange lo hi l.limit _ s.limit (floor l s)) cleared)
          (λ _. cleared)

    aimd_on_success-Safe : (l : Limiter) → Safe lo hi l → Safe lo hi (aimd_on_success l)
    unfolding aimd_on_success
    aimd_on_success-Safe l s = search (
      if-Safe,
      keep l (record l { successes = inc32 l.successes }) refl s.limit s.in_flight s,
      raise-Safe (record l { successes = pos 0 })
          (keep l (record l { successes = pos 0 }) refl s.limit s.in_flight s),
    )

    vegas_adjust-Safe : (l : Limiter) → Safe lo hi l → Safe lo hi (vegas_adjust l)
    unfolding vegas_adjust
    vegas_adjust-Safe l s = search (if-Safe, s, raise-Safe l s, lower-Safe l s)

    vegas_on_success-Safe :
        (rtt : ℤ) (l : Limiter) → Safe lo hi l → Safe lo hi (vegas_on_success rtt l)
    unfolding vegas_on_success
    vegas_on_success-Safe rtt l s =
        let sampled =
          keep l
            (record l {
              min_rtt = update_min l.min_rtt rtt;
              ema_rtt = vegas_ema l.ema_rtt rtt;
              rtt_samples = add_int64 l.rtt_samples (pos 1);
            })
            refl s.limit s.in_flight s in
        search (if-Safe, s, sampled, vegas_adjust-Safe _ sampled)

    gradient_adjust-Safe : (l : Limiter) → Safe lo hi l → Safe lo hi (gradient_adjust l)
    unfolding gradient_adjust
    gradient_adjust-Safe l s =
        let clamped =
          clamp-InRange lo hi (gradient_target l) _ _ s.ordered (floor l s) (ceiling l s) in
        search (if-Safe, s, set_limit-Safe _ l clamped s)

    gradient2_on_success-Safe :
        (rtt : ℤ) (l : Limiter) → Safe lo hi l → Safe lo hi (gradient2_on_success rtt l)
    unfolding gradient2_on_success
    gradient2_on_success-Safe rtt l s =
        let sampled =
          keep l
            (record l {
              min_rtt = update_min l.min_rtt rtt;
              ema_rtt = gradient_ema l.config.gradient_smoothing l.ema_rtt rtt;
              rtt_samples = add_int64 l.rtt_samples (pos 1);
            })
            refl s.limit s.in_flight s in
        search (if-Safe, s, sampled, gradient_adjust-Safe _ sampled)

    pub complete-Safe :
        (rtt : ℤ) (err : Option Error) (l : Limiter)
        → Safe lo hi l
        → Safe lo hi (complete rtt err l)
    unfolding complete
    complete-Safe rtt (some e) l s = on_failure-Safe l s
    complete-Safe rtt none l s =
        elim l.config.algorithm
          as (λ a. Safe lo hi (elim a [
            | algorithm_vegas ↦ vegas_on_success rtt l
            | algorithm_gradient2 ↦ gradient2_on_success rtt l
            | algorithm_aimd ↦ aimd_on_success l
            | other ↦ aimd_on_success l
          ])) [
            | algorithm_vegas ↦ vegas_on_success-Safe rtt l s
            | algorithm_gradient2 ↦ gradient2_on_success-Safe rtt l s
            | algorithm_aimd ↦ aimd_on_success-Safe l s
            | other ↦ aimd_on_success-Safe l s
          ]
