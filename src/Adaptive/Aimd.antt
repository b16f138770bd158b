-- ===== src/Adaptive/Aimd.antt =====
-- The additive increase and the multiplicative decrease of adaptive/adaptive.go.
use fortify.Base.{
  ℕ, zero, suc, ◌+◌, ◌/◌, ◌≡◌, refl, ◌≤◌, ◌<◌, true, false, Float64, ℤ, pos, ltb_ℤ, ltb, int32,
  int32_exact, arith, if◌then◌else◌, quot, subst, sym, ap, ◌||◌, Bool-cases, inl, inr,
}
use fortify.Adaptive.Limiter.{Limiter, aimd_on_success, on_failure, set_limit, inc32}
use fortify.Adaptive.Bounds.{inc32_exact}

-- The two tests of aimd_on_success on numbers.
counting :
    (x t : ℤ) (s n : ℕ)
    → x ≡ pos s
    → t ≡ pos n
    → n < 2147483648
    → s + 1 < n
    → ltb_ℤ (inc32 x) (int32 t) ≡ true
counting x t s n e f small below =
    rw (e, f, int32_exact n small, inc32_exact s (omega arith)) (ground arith)

counted :
    (x t : ℤ) (s n : ℕ)
    → x ≡ pos s
    → t ≡ pos n
    → n < 2147483648
    → s + 1 ≡ n
    → ltb_ℤ (inc32 x) (int32 t) ≡ false
counted x t s n e f small below =
    rw (e, f, int32_exact n small, inc32_exact s (omega arith)) (ground arith)

room :
    (x t : ℤ) (s n : ℕ) → x ≡ pos s → t ≡ pos n → n < 2147483648 → s < n → ltb_ℤ x (int32 t) ≡ true
room x t s n e f small below = rw (e, f, int32_exact n small) (ground arith)

halved :
    (x low : ℤ) (n m : ℕ)
    → x ≡ pos n
    → low ≡ pos m
    → m < 2147483648
    → (if ltb_ℤ (quot x (pos 2)) (int32 low) then int32 low else quot x (pos 2))
      ≡ pos (if ltb (n / 2) m then m else n / 2)
unfolding quot
halved x low n m e f small = rw (e, f, int32_exact m small) (ground arith)

unmoved : (m n : ℕ) → (ltb_ℤ (pos n) (pos m) || ltb_ℤ (pos m) (pos n)) ≡ false → m ≡ n
unmoved m n h = ground arith

module _ ⦃fl : Float64⦄ where
  -- n successes in a row.
  abbrev pub successes : ℕ → Limiter → Limiter
  successes zero l = l
  successes (suc n) l = successes n (aimd_on_success l)

  counts_up :
      (threshold s : ℕ) (l : Limiter)
      → l.config.success_threshold ≡ pos threshold
      → threshold < 2147483648
      → l.successes ≡ pos s
      → s + 1 < threshold
      → aimd_on_success l ≡ record l { successes = inc32 l.successes }
  unfolding aimd_on_success
  counts_up threshold s l t small e below = rw (counting l.successes _ s threshold e t small below)

  raises :
      (threshold s limit highest : ℕ) (l : Limiter)
      → l.config.success_threshold ≡ pos threshold
      → threshold < 2147483648
      → l.successes ≡ pos s
      → s + 1 ≡ threshold
      → l.limit ≡ pos limit
      → l.config.max_limit ≡ pos highest
      → limit < highest
      → highest < 2147483648
      → ((aimd_on_success l).limit ≡ pos (limit + 1)) × ((aimd_on_success l).successes ≡ pos 0)
  unfolding aimd_on_success set_limit
  raises threshold s limit highest l t small e last el em free narrow =
      rw
        (
          counted l.successes _ s threshold e t small last,
          room l.limit _ limit highest el em narrow free,
        )
        (rw (el, inc32_exact limit (omega arith)) refl, refl)

  -- AIMD, by one goroutine: a limiter whose success counter is s raises its limit by exactly one
  -- over the next SuccessThreshold - s successes in a row, and its counter is 0 then, if the limit
  -- is below MaxLimit, the counter below SuccessThreshold, and both configured numbers are int32s.
  additive_increase :
      (n threshold s limit highest : ℕ) (l : Limiter)
      → l.config.success_threshold ≡ pos threshold
      → threshold < 2147483648
      → l.successes ≡ pos s
      → s + suc n ≡ threshold
      → l.limit ≡ pos limit
      → l.config.max_limit ≡ pos highest
      → limit < highest
      → highest < 2147483648
      → ((successes (suc n) l).limit ≡ pos (limit + 1)) × ((successes (suc n) l).successes ≡ pos 0)
  additive_increase zero threshold s limit highest l t small e last el em free narrow =
      raises threshold s limit highest l t small e (omega arith) el em free narrow
  additive_increase (suc n) threshold s limit highest l t small e last el em free narrow =
      subst
        (λ m.
          ((successes (suc n) m).limit ≡ pos (limit + 1))
          × ((successes (suc n) m).successes ≡ pos 0))
        (sym (counts_up threshold s l t small e (omega arith)))
        (additive_increase n threshold (s + 1) limit highest
          (record l { successes = inc32 l.successes }) t small (rw e (inc32_exact s (omega arith)))
          (omega arith) el em free narrow)

  -- A failure halves the limit, rounding down, but not below MinLimit, and clears the success
  -- counter, for a limit that is an int32 and not below MinLimit.
  multiplicative_decrease :
      (limit lowest : ℕ) (l : Limiter)
      → l.limit ≡ pos limit
      → l.config.min_limit ≡ pos lowest
      → lowest ≤ limit
      → limit < 2147483648
      → ((on_failure l).limit ≡ pos (if ltb (limit / 2) lowest then lowest else limit / 2))
        × ((on_failure l).successes ≡ pos 0)
  unfolding on_failure set_limit quot
  multiplicative_decrease limit lowest l e f le narrow =
      let next = if ltb (limit / 2) lowest then lowest else limit / 2 in
      let floored = halved l.limit l.config.min_limit limit lowest e f (omega arith) in
      elim (Bool-cases (ltb_ℤ (pos next) (pos limit) || ltb_ℤ (pos limit) (pos next))) [
        | inl moves ↦ rw (floored, e, moves) (refl, refl)
        | inr stays ↦ rw (floored, e, stays) (ap pos (unmoved limit next stays), refl)
      ]
