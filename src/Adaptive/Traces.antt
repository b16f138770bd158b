-- ===== src/Adaptive/Traces.antt =====
-- Calls of Execute (adaptive/adaptive.go) on one limiter, in any order of their steps.
use fortify.Base.{
  not, ◌&&◌, ap, All, ℕ, zero, suc, ◌+◌, ◌≡◌, refl, ◌∙◌, subst, ◌≤◌, ◌<◌, true, Option, none, some,
  List, [], ◌∷◌, Float64, ℤ, pos, negsuc, ltb_ℤ, is_pos, int32, int32_exact, arith, if◌then◌else◌,
  inl, inr, Bool-cases, Option-cases, IfSome,
}
use fortify.Ferrors.{Error}
use fortify.Adaptive.Config.{Config, set_defaults, default_limits}
use fortify.Adaptive.Limiter.{
  Limiter, Tried, acquired, new, try_acquire, release, complete, inc32, dec32, on_failure,
  aimd_on_success, vegas_on_success, vegas_adjust, gradient2_on_success, gradient_adjust, set_limit,
}
use fortify.Adaptive.Bounds.{
  InRange, Safe, keep, complete-Safe, inc32_exact, dec32_exact, clamp-InRange,
}

int32-InRange : (lo hi : ℕ) (x : ℤ) → InRange lo hi x → hi < 2147483648 → InRange lo hi (int32 x)
int32-InRange lo hi (negsuc n) r h = elim r [ ]
int32-InRange lo hi (pos n) r h = rw (int32_exact n (omega arith)) r

raised-ordered :
    (lo hi : ℕ) (x low : ℤ) → low ≡ pos lo → (if ltb_ℤ x low then low else x) ≡ pos hi → lo ≤ hi
raised-ordered lo hi (pos n) low e h = ground (arith, e)
raised-ordered lo hi (negsuc n) low e h = ground (arith, e)

module _ ⦃fl : Float64⦄ where
  -- The limiter, every value that its limit has had, how many calls of Execute have been admitted and
  -- still run fn, and how many have adapted the limit and not yet given their slot back.
  pub record System : Type 0 where
    pub limiter : Limiter
    pub limits : List ℤ
    pub running : ℕ
    pub leaving : ℕ

  abbrev pub start : Config → System
  start c = record { limiter = new c; limits = (new c).limit ∷ []; running = 0; leaving = 0 }

  abbrev pub loaded : ℕ → List ℤ → Option ℤ
  loaded i [] = none
  loaded zero (x ∷ xs) = some x
  loaded (suc i) (x ∷ xs) = loaded i xs

  -- A call of Execute whose context has ended returns at once. Another one makes a pass of tryAcquire, with any value loaded from the
  -- counter and the i-th value of the limit; one whose fn has returned adapts the limit; one that has
  -- done so makes its deferred Add.
  pub data Event : Type 0 where
    tries : ℤ → ℕ → Event
    adapts : ℤ → Option Error → Event
    leaves : Event

  abbrev tried : System → Limiter × Tried → System
  tried s (l, acquired) = record s { limiter = l; running = s.running + 1 }
  tried s (l, _) = record s { limiter = l }

  -- none: no call is left that could make the step.
  unfoldable pub advance : Event → System → Option System
  advance (tries cur i) s = elim (loaded i s.limits) [
    | none ↦ none
    | some lim ↦ some (tried s (try_acquire cur lim s.limiter))
  ]
  advance (adapts rtt err) s = elim s.running [
    | zero ↦ none
    | suc n ↦
        let l = complete rtt err s.limiter in
        some (record {
          limiter = l;
          limits = l.limit ∷ s.limits;
          running = n;
          leaving = s.leaving + 1;
        })
  ]
  advance leaves s = elim s.leaving [
    | zero ↦ none
    | suc n ↦ some (record s { limiter = release s.limiter; leaving = n })
  ]

  unfoldable pub run_events : List Event → System → Option System
  unfolding advance
  run_events [] s = some s
  run_events (e ∷ es) s = elim (advance e s) [ none ↦ none | some t ↦ run_events es t ]

  module _ (lo hi : ℕ) where
    -- The counter is the number of the calls that hold a slot.
    pub record Sound (s : System) : Type 0 where
      pub safe : Safe lo hi s.limiter
      pub counted : s.limiter.in_flight ≡ pos (s.running + s.leaving)
      pub history : All (InRange lo hi) s.limits

    loaded-InRange :
        (i : ℕ) (xs : List ℤ) (x : ℤ)
        → loaded i xs ≡ some x
        → All (InRange lo hi) xs
        → InRange lo hi x
    loaded-InRange i [] x h r = ground (arith, h)
    loaded-InRange zero (y ∷ ys) x h r =
        let same : y ≡ x = ground (arith, h) in subst (InRange lo hi) same r.0
    loaded-InRange (suc i) (y ∷ ys) x h r = loaded-InRange i ys x h r.1

    -- A swap that succeeds has found the counter below a limit of the history.
    swapped :
        (n : ℕ) (cur lim : ℤ)
        → ltb_ℤ cur lim ≡ true
        → (not (ltb_ℤ cur (pos n)) && not (ltb_ℤ (pos n) cur)) ≡ true
        → InRange lo hi lim
        → (cur ≡ pos n) × (n < hi)
    swapped n cur (negsuc m) below same r = elim r [ ]
    swapped n (negsuc k) (pos m) below same r = ground (arith, same)
    swapped n (pos k) (pos m) below same r =
        let equal : k ≡ n = ground (arith, same) in (ap pos equal, ground (arith, below, r, equal))

    acquired-Sound :
        (s : System) (cur lim : ℤ)
        → ltb_ℤ cur lim ≡ true
        → (not (ltb_ℤ cur s.limiter.in_flight) && not (ltb_ℤ s.limiter.in_flight cur)) ≡ true
        → InRange lo hi lim
        → Sound s
        → Sound (record s {
          limiter = record s.limiter { in_flight = inc32 cur };
          running = s.running + 1;
        })
    acquired-Sound s cur lim below same r v =
        let l = s.limiter in
        let held = s.running + s.leaving in
        let same' = subst (λ x. (not (ltb_ℤ cur x) && not (ltb_ℤ x cur)) ≡ true) v.counted same in
        let (equal, room) = swapped held cur lim below same' r in
        let exact : inc32 cur ≡ pos (held + 1) =
          ap inc32 equal ∙ inc32_exact held (omega (arith, room, v.safe.narrow)) in
        let within : InRange 0 hi (inc32 cur) = rw exact (omega arith, omega (arith, room)) in
        let shifted : held + 1 ≡ s.running + 1 + s.leaving = omega arith in
        record {
          safe = keep lo hi l (record l { in_flight = inc32 cur }) refl v.safe.limit within v.safe;
          counted = exact ∙ ap pos shifted;
          history = v.history;
        }

    pass-Sound :
        (s : System) (cur lim : ℤ)
        → InRange lo hi lim
        → Sound s
        → Sound (tried s (try_acquire cur lim s.limiter))
    unfolding try_acquire
    pass-Sound s cur lim r v = elim (Bool-cases (ltb_ℤ cur lim)) [
      | inr full ↦ rw full v
      | inl below ↦
          let x = s.limiter.in_flight in
          elim (Bool-cases (not (ltb_ℤ cur x) && not (ltb_ℤ x cur))) [
            | inl same ↦ rw (below, same) (acquired-Sound s cur lim below same r v)
            | inr stale ↦ rw (below, stale) v
          ]
    ]

    tries-Sound : (cur : ℤ) (i : ℕ) (s : System) → Sound s → IfSome Sound (advance (tries cur i) s)
    unfolding advance
    tries-Sound cur i s v = elim (Option-cases (loaded i s.limits)) [
      | inl nothing ↦ rw (nothing, IfSome) tt
      | inr (lim, found) ↦
          rw (found, IfSome)
            (pass-Sound s cur lim (loaded-InRange i s.limits lim found v.history) v)
    ]

    complete-in_flight :
        (rtt : ℤ) (err : Option Error) (l : Limiter) → (complete rtt err l).in_flight ≡ l.in_flight
    unfolding complete on_failure aimd_on_success vegas_on_success vegas_adjust gradient2_on_success
        gradient_adjust set_limit
    complete-in_flight rtt err l = ground arith

    adapts-Sound :
        (rtt : ℤ) (err : Option Error) (l : Limiter) (limits : List ℤ) (n m : ℕ)
        → Sound (record { limiter = l; limits = limits; running = n; leaving = m })
        → IfSome Sound (
            advance
              (adapts rtt err)
              (record { limiter = l; limits = limits; running = n; leaving = m }))
    unfolding advance
    adapts-Sound rtt err l limits zero m v = tt
    adapts-Sound rtt err l limits (suc n) m v =
        let w = complete-Safe lo hi rtt err l v.safe in
        let shifted : suc n + m ≡ n + (m + 1) = omega arith in
        record {
          safe = w;
          counted = complete-in_flight rtt err l ∙ v.counted ∙ ap pos shifted;
          history = (w.limit, v.history);
        }

    released :
        (l : Limiter) (k : ℕ)
        → Safe lo hi l
        → l.in_flight ≡ pos (suc k)
        → Safe lo hi (release l) × ((release l).in_flight ≡ pos k)
    unfolding release
    released l k v e =
        let bound : InRange 0 hi (pos (suc k)) = subst (InRange 0 hi) e v.in_flight in
        let exact = dec32_exact k (omega (arith, bound.1, v.narrow)) in
        let within : InRange 0 hi (dec32 l.in_flight) =
          rw (e, exact) (omega arith, omega (arith, bound.1)) in
        (keep lo hi l (release l) refl v.limit within v, rw e exact)

    leaves-Sound :
        (l : Limiter) (limits : List ℤ) (n m : ℕ)
        → Sound (record { limiter = l; limits = limits; running = n; leaving = m })
        → IfSome Sound
            (advance leaves (record { limiter = l; limits = limits; running = n; leaving = m }))
    unfolding advance
    leaves-Sound l limits n zero v = tt
    leaves-Sound l limits n (suc m) v =
        let shifted : n + suc m ≡ suc (n + m) = omega arith in
        let (w, exact) = released l (n + m) v.safe (v.counted ∙ ap pos shifted) in
        record { safe = w; counted = exact; history = v.history }

    advance-Sound : (e : Event) (s : System) → Sound s → IfSome Sound (advance e s)
    advance-Sound (tries cur i) s v = tries-Sound cur i s v
    advance-Sound (adapts rtt err) s v =
        adapts-Sound rtt err s.limiter s.limits s.running s.leaving v
    advance-Sound leaves s v = leaves-Sound s.limiter s.limits s.running s.leaving v

    run_events-Sound :
        (es : List Event) (s t : System) → run_events es s ≡ some t → Sound s → Sound t
    unfolding run_events
    run_events-Sound [] s t h v = subst Sound (ground (arith, h)) v
    run_events-Sound (e ∷ es) s t h v = elim (Option-cases (advance e s)) [
      | inl stuck ↦ ground (arith, stuck, h)
      | inr (u, went) ↦
          run_events-Sound es u t (ground (arith, went, h))
            (subst (IfSome Sound) went (advance-Sound e s v))
    ]

    start-Sound :
        (c : Config)
        → (set_defaults c).min_limit ≡ pos lo
        → (set_defaults c).max_limit ≡ pos hi
        → hi < 2147483648
        → Sound (start c)
    unfolding new set_defaults default_limits
    start-Sound c low high narrow =
        let first = if is_pos c.initial_limit then c.initial_limit else pos 10 in
        let ordered =
          raised-ordered lo hi (if is_pos c.max_limit then c.max_limit else pos 200) _ low high in
        let within =
          int32-InRange lo hi _ (clamp-InRange lo hi first _ _ ordered low high) narrow in
        record {
          safe = record {
            lowest = low;
            highest = high;
            ordered = ordered;
            narrow = narrow;
            limit = within;
            in_flight = (omega arith, omega arith);
          };
          counted = refl;
          history = (within, tt);
        }

    -- From a new limiter whose normalised bounds are MinLimit = lo and MaxLimit = hi, hi an int32, calls
    -- of Execute make their steps in any order, with any algorithm, results and measured times: a
    -- pass of tryAcquire with a limit that may have changed since it was loaded and any load of the
    -- counter, an adaptation of the limit, which no other goroutine interrupts, and the deferred
    -- release. Then the limit is from lo to hi, and the in-flight counter is the number of the
    -- admitted calls that have not released their slot, hi at most.
    pub reachable-InRange :
        (c : Config) (es : List Event) (s : System)
        → (set_defaults c).min_limit ≡ pos lo
        → (set_defaults c).max_limit ≡ pos hi
        → hi < 2147483648
        → run_events es (start c) ≡ some s
        → InRange lo hi s.limiter.limit
          × (s.limiter.in_flight ≡ pos (s.running + s.leaving))
          × (s.running + s.leaving ≤ hi)
    reachable-InRange c es s low high narrow h =
        let v = run_events-Sound es (start c) s h (start-Sound c low high narrow) in
        let bound : InRange 0 hi (pos (s.running + s.leaving)) =
          subst (InRange 0 hi) v.counted v.safe.in_flight in
        (v.safe.limit, v.counted, bound.1)
