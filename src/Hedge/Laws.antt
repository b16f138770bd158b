-- ===== src/Hedge/Laws.antt =====
-- Which result Execute of hedge/hedge.go returns, and that it does not get stuck.
use fortify.Base.{
  IfSome, ℕ, ◌+◌, ◌≤◌, ◌<◌, ◌≡◌, ◌≢◌, refl, sym, ap, ◌∙◌, subst, true, ◌⊎◌, inl, inr, Option, none,
  some, List, [], ◌∷◌, ◌++◌, length, All, pos_part, arith, Option-cases, length-append,
  if◌then◌else◌,
}
use fortify.Ferrors.{Error}
use fortify.Hedge.Defs.{
  Config, Result, Race, Event, fn_returns, ctx_ends, receives, timer_fires, ctx_done, or_else,
  start, fire_ends, fire_drops, drops, collect, on_timer, step, run,
}

-- The error of the first failure of a list of results.
abbrev pub first_error : {T : Type 0} → List (Result T) → Option Error
first_error [] = none
first_error ((v, none) ∷ rest) = first_error rest
first_error ((v, some e) ∷ rest) = some e

abbrev pub Failed : {T : Type 0} → Result T → Type 0
Failed r = r.1 ≢ none

pub or_else-some : (o : Option Error) (e : Error) → or_else o e ≢ none
or_else-some none e h = ground (arith, h)
or_else-some (some d) e h = ground (arith, h)

first_error-append :
    {T : Type 0}
    → (rs : List (Result T)) (v : T) (e : Error)
    → first_error (rs ++ ((v, some e) ∷ [])) ≡ or_else (first_error rs) e
first_error-append [] v e = refl
first_error-append ((w, none) ∷ rs) v e = first_error-append rs v e
first_error-append ((w, some d) ∷ rs) v e = refl

pub All-Failed-append :
    {T : Type 0}
    → (rs : List (Result T)) (r : Result T) → All Failed rs
    → Failed r
    → All Failed (rs ++ (r ∷ []))
All-Failed-append [] r p q = (q, tt)
All-Failed-append (x ∷ rs) r p q = (p.0, All-Failed-append rs r p.1 q)

module _ {T : Type 0} (zero_value : T) (c : Config) where
  abbrev pub cap : ℕ
  cap = pos_part c.max_attempts

  pub record Racing (race : Race T) : Type 0 where
    pub started : 1 ≤ race.fired
    pub bounded : race.fired ≤ cap
    pub counted : race.running + length race.results + race.collected ≤ race.fired
    pub exact :
        (race.ctx_err ≢ none) ⊎ (race.fired ≡ race.running + length race.results + race.collected)
    pub collected_all : race.collected ≡ length race.received
    pub losers : All Failed race.received
    pub first_kept : race.first_err ≡ first_error race.received
    pub timer : (race.armed ≡ true) ⊎ (race.fired ≡ cap)
    pub unfinished : race.collected < cap

  -- The ways to end: the first success, after failures only; the end of the context; as many failures
  -- as MaxAttempts.
  abbrev pub Explained : Race T → Result T → Type 0
  Explained race r =
      ((r.1 ≡ none)
        × ((earlier : List (Result T)) × (race.received ≡ earlier ++ (r ∷ []))
            × All Failed earlier))
      ⊎ ((r ≡ (zero_value, race.ctx_err)) × (race.ctx_err ≢ none))
      ⊎ ((r ≡ (zero_value, first_error race.received))
          × (length race.received ≡ cap)
          × All Failed race.received)

  abbrev pub Phase : Option (Result T) → Race T → Type 0
  Phase none race = Racing race
  Phase (some r) race = (race.fired ≤ cap) × Explained race r

  abbrev pub Inv : Race T → Type 0
  Inv race = Phase race.outcome race

  collect-Phase :
      (v : T) (err : Option Error) (rest : List (Result T)) (race : Race T)
      → race.results ≡ (v, err) ∷ rest
      → Racing race
      → Inv (collect zero_value c v err rest race)
  unfolding collect
  collect-Phase v none rest race h w = (w.bounded, inl (refl, (race.received, refl, w.losers)))
  collect-Phase v (some e) rest race h w =
      let losers = All-Failed-append race.received (v, some e) w.losers (λ z. ground (arith, z)) in
      ground (
        arith,
        h,
        w.started,
        w.bounded,
        w.counted,
        w.exact,
        w.collected_all,
        w.timer,
        w.unfinished,
        w.first_kept,
        losers,
        first_error-append race.received v e,
        length-append race.received ((v, some e) ∷ []),
      )

  fire_ends-Inv :
      (r : Result T) (race : Race T) → Inv race → IfSome Inv (fire_ends zero_value c r race)
  unfolding fire_ends
  fire_ends-Inv r race w = ground (arith, w, length-append race.results (r ∷ []))

  fire_drops-Inv : (race : Race T) → Inv race → IfSome Inv (fire_drops zero_value c race)
  unfolding fire_drops
  fire_drops-Inv race w = ground (arith, w)

  ctx_ends-Phase :
      (o : Option (Result T)) (e : Error) (race : Race T)
      → Phase o race
      → Phase o (record race { ctx_err = or_else race.ctx_err e })
  ctx_ends-Phase none e race w = record {
    started = w.started;
    bounded = w.bounded;
    counted = w.counted;
    exact = inl (or_else-some race.ctx_err e);
    collected_all = w.collected_all;
    losers = w.losers;
    first_kept = w.first_kept;
    timer = w.timer;
    unfinished = w.unfinished;
  }
  ctx_ends-Phase (some r) e race (b, inl first) = (b, inl first)
  ctx_ends-Phase (some r) e race (b, inr (inl (h, k))) =
      let kept : or_else race.ctx_err e ≡ race.ctx_err = ground (arith, k) in
      (
        b,
        inr (
            inl (h ∙ ap (λ (x : Option Error). (zero_value, x)) (sym kept), λ z. k (sym kept ∙ z))),
      )
  ctx_ends-Phase (some r) e race (b, inr (inr all_failed)) = (b, inr (inr all_failed))

  receive-Phase :
      (results : List (Result T)) (race : Race T)
      → race.results ≡ results
      → Racing race
      → IfSome Inv
          (elim results [ [] ↦ none | r ∷ rest ↦ some (collect zero_value c r.0 r.1 rest race) ])
  receive-Phase [] race h w = tt
  receive-Phase (r ∷ rest) race h w = collect-Phase r.0 r.1 rest race h w

  receives-Phase :
      (o : Option (Result T)) (race : Race T)
      → Phase o race
      → IfSome Inv (elim o [
        | some _ ↦ none
        | none ↦ elim race.results [
          | [] ↦ none
          | r ∷ rest ↦ some (collect zero_value c r.0 r.1 rest race)
        ]
      ])
  receives-Phase none race w = receive-Phase race.results race refl w
  receives-Phase (some r) race w = tt

  timer-Phase :
      (o : Option (Result T)) (race : Race T)
      → race.outcome ≡ o
      → Phase o race
      → IfSome Inv (elim o [
        | some _ ↦ none
        | none ↦ if race.armed then some (on_timer zero_value c race) else none
      ])
  unfolding on_timer
  timer-Phase none race h w = ground (
    arith, h, w.started, w.bounded, w.counted, w.exact, w.collected_all, w.timer, w.unfinished,
    w.first_kept, w.losers,
  )
  timer-Phase (some r) race h w = tt

  ctx_done-Phase :
      (o : Option (Result T)) (race : Race T)
      → Phase o race
      → IfSome Inv (elim o [
        | some _ ↦ none
        | none ↦ elim race.ctx_err [
          | none ↦ none
          | some e ↦ some (record race { outcome = some (zero_value, some e) })
        ]
      ])
  ctx_done-Phase none race w = ground (arith, w.bounded)
  ctx_done-Phase (some r) race w = tt

  pub step-Inv : (e : Event T) (race : Race T) → Inv race → IfSome Inv (step zero_value c e race)
  unfolding step
  step-Inv (fn_returns r) race w = fire_ends-Inv r race w
  step-Inv drops race w = fire_drops-Inv race w
  step-Inv (ctx_ends e) race w = ctx_ends-Phase race.outcome e race w
  step-Inv receives race w = receives-Phase race.outcome race w
  step-Inv timer_fires race w = timer-Phase race.outcome race refl w
  step-Inv ctx_done race w = ctx_done-Phase race.outcome race w

  pub run-Inv :
      (es : List (Event T)) (race out : Race T)
      → run zero_value c es race ≡ some out
      → Inv race
      → Inv out
  unfolding run
  run-Inv [] race out h w = subst Inv (ground (arith, h)) w
  run-Inv (e ∷ es) race out h w = elim (Option-cases (step zero_value c e race)) [
    | inl stuck ↦ ground (arith, stuck, h)
    | inr (next, went) ↦
        run-Inv es next out (ground (arith, went, h)) (subst (IfSome Inv) went (step-Inv e race w))
  ]

  pub start-Inv : (err : Option Error) → 1 ≤ cap → Inv (start zero_value c err)
  unfolding start
  start-Inv none h = record {
    started = omega arith;
    bounded = h;
    counted = omega arith;
    exact = inr refl;
    collected_all = refl;
    losers = tt;
    first_kept = refl;
    timer = inl refl;
    unfinished = h;
  }
  start-Inv (some e) h = (omega arith, inr (inl (refl, λ z. ground (arith, z))))
