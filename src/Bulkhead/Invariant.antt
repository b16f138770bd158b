-- ===== src/Bulkhead/Invariant.antt =====
-- What holds in every state of a bulkhead (bulkhead/bulkhead.go), in any order of the steps of its
-- goroutines.
use fortify.Base.{
  IfSome, ℕ, zero, suc, ◌+◌, ◌≤◌, ◌≡◌, refl, subst, true, Option, some, List, [], ◌∷◌, ◌++◌,
  pos_part, arith, All, Option-cases, inl, inr,
}
use fortify.Ferrors.{Error}
use fortify.Bulkhead.Config.{Config}
use fortify.Bulkhead.Defs.{Shared, Call}
use fortify.Bulkhead.System.{
  call_at, put, Happening, happen, Event, arrives, happens, closes, worker_stops, worker_drained,
  System, new_call, close, step, run,
}
use fortify.Bulkhead.Slots.{sound, slots, lines, Keeps, Before, happen-Keeps}
use fortify.Bulkhead.Results.{Honest, happen-Honest}

module _ {ℓ} {A : Type ℓ} where
  abbrev pub total : (A → ℕ) → List A → ℕ
  total w [] = 0
  total w (x ∷ xs) = w x + total w xs

  total-put :
      (w : A → ℕ) (i : ℕ) (x y : A) (xs : List A)
      → call_at i xs ≡ some x
      → total w (put i y xs) + w x ≡ total w xs + w y
  total-put w i x y [] h = ground (arith, h)
  total-put w zero x y (z ∷ xs) h = ground (arith, h)
  total-put w (suc i) x y (z ∷ xs) h = omega (arith, total-put w i x y xs h)

  total-append : (w : A → ℕ) (xs : List A) (y : A) → w y ≡ 0 → total w (xs ++ (y ∷ [])) ≡ total w xs
  total-append w [] y h = omega (arith, h)
  total-append w (x ∷ xs) y h = omega (arith, total-append w xs y h)

  pub call_at-put :
      (i : ℕ) (x y : A) (xs : List A) → call_at i xs ≡ some x → call_at i (put i y xs) ≡ some y
  call_at-put i x y [] h = ground (arith, h)
  call_at-put zero x y (z ∷ xs) h = refl
  call_at-put (suc i) x y (z ∷ xs) h = call_at-put i x y xs h

  module _ (P : A → Type 0) where
    pub All-call_at : (i : ℕ) (x : A) (xs : List A) → All P xs → call_at i xs ≡ some x → P x
    All-call_at i x [] p h = ground (arith, h)
    All-call_at zero x (y ∷ xs) p h = subst P (ground (arith, h)) p.0
    All-call_at (suc i) x (y ∷ xs) p h = All-call_at i x xs p.1 h

    All-put : (i : ℕ) (y : A) (xs : List A) → All P xs → P y → All P (put i y xs)
    All-put i y [] p q = tt
    All-put zero y (x ∷ xs) p q = (q, p.1)
    All-put (suc i) y (x ∷ xs) p q = (p.0, All-put i y xs p.1 q)

    All-append : (xs : List A) (y : A) → All P xs → P y → All P (xs ++ (y ∷ []))
    All-append [] y p q = (q, tt)
    All-append (x ∷ xs) y p q = (p.0, All-append xs y p.1 q)

  total_at : (w : A → ℕ) (i : ℕ) (x : A) (xs : List A) → call_at i xs ≡ some x → w x ≤ total w xs
  total_at w i x [] h = ground (arith, h)
  total_at w zero x (y ∷ xs) h = ground (arith, h)
  total_at w (suc i) x (y ∷ xs) h = omega (arith, total_at w i x xs h)

module _ {T : Type 0} (zero_value : T) (c : Config) where
  pub record CallInv (call : Call T) : Type 0 where
    pub is_sound : sound call ≡ true
    pub is_honest : Honest zero_value call

  pub record Inv (s : System T) : Type 0 where
    pub each : All CallInv s.calls
    pub sem_exact : s.shared.sem ≡ total slots s.calls
    pub queue_exact : s.shared.queue_sem ≡ total lines s.calls
    pub sem_fits : s.shared.sem ≤ pos_part c.max_concurrent
    pub queue_fits : s.shared.queue_sem ≤ pos_part c.max_queue

  new_call-CallInv : (err : Option Error) → CallInv (new_call err)
  new_call-CallInv err = record {
    is_sound = refl;
    is_honest = record { reply_genuine = tt; outcome_genuine = tt };
  }

  put-Inv :
      (s : System T) (i : ℕ) (call : Call T) (out : Call T × Shared)
      → call_at i s.calls ≡ some call
      → Keeps c call s.shared out
      → Honest zero_value out.0
      → Inv s
      → Inv (record { shared = out.1; calls = put i out.0 s.calls })
  put-Inv s i call out h k g v = record {
    each =
        All-put CallInv i out.0 s.calls v.each (record { is_sound = k.sound_after; is_honest = g });
    sem_exact = omega (arith, v.sem_exact, k.sem_after, total-put slots i call out.0 s.calls h);
    queue_exact =
        omega (arith, v.queue_exact, k.queue_after, total-put lines i call out.0 s.calls h);
    sem_fits = k.sem_fits;
    queue_fits = k.queue_fits;
  }

  Inv-Before :
      (s : System T) (i : ℕ) (call : Call T)
      → call_at i s.calls ≡ some call
      → Inv s
      → Before c call s.shared
  Inv-Before s i call h v = record {
    sound_before = (All-call_at CallInv i call s.calls v.each h).is_sound;
    sem_before = omega (arith, v.sem_exact, total_at slots i call s.calls h);
    queue_before = omega (arith, v.queue_exact, total_at lines i call s.calls h);
    sem_fit = v.sem_fits;
    queue_fit = v.queue_fits;
  }

  happens-Inv :
      (s t : System T) (i : ℕ) (h : Happening T)
      → step zero_value c (happens i h) s ≡ some t
      → Inv s
      → Inv t
  unfolding step
  happens-Inv s t i h e v = elim (Option-cases (call_at i s.calls)) [
    | inl nobody ↦ ground (arith, nobody, e)
    | inr (call, found) ↦
        let b = Inv-Before s i call found v in
        let keeps = happen-Keeps zero_value c call s.shared b h in
        let honest =
          happen-Honest zero_value c call s.shared b.sound_before
            (All-call_at CallInv i call s.calls v.each found).is_honest h in
        elim (Option-cases (happen zero_value c h call s.shared)) [
          | inl blocked ↦ ground (arith, found, blocked, e)
          | inr (out, went) ↦
              let k : Keeps c call s.shared out =
                subst (IfSome (Keeps c call s.shared)) went keeps in
              let g : Honest zero_value out.0 =
                subst (IfSome (λ (x : Call T × Shared). Honest zero_value x.0)) went honest in
              subst Inv (ground (arith, found, went, e)) (put-Inv s i call out found k g v)
        ]
  ]

  arrives-Inv :
      (s : System T) (err : Option Error)
      → Inv s
      → Inv (record s { calls = s.calls ++ (new_call err ∷ []) })
  arrives-Inv s err v = record {
    each = All-append CallInv s.calls (new_call err) v.each (new_call-CallInv err);
    sem_exact = omega (arith, v.sem_exact, total-append slots s.calls (new_call err) refl);
    queue_exact = omega (arith, v.queue_exact, total-append lines s.calls (new_call err) refl);
    sem_fits = v.sem_fits;
    queue_fits = v.queue_fits;
  }

  step-Inv : (e : Event T) (s t : System T) → step zero_value c e s ≡ some t → Inv s → Inv t
  unfolding step close
  step-Inv (happens i h) s t e v = happens-Inv s t i h e v
  step-Inv (arrives err) s t e v = subst Inv (ground (arith, e)) (arrives-Inv s err v)
  step-Inv closes s t e v = ground (arith, e, v.each)
  step-Inv worker_stops s t e v = ground (arith, e, v.each)
  step-Inv worker_drained s t e v = ground (arith, e, v.each)

  pub run-Inv :
      (es : List (Event T)) (s t : System T) → run zero_value c es s ≡ some t → Inv s → Inv t
  unfolding run
  run-Inv [] s t h v = subst Inv (ground (arith, h)) v
  run-Inv (e ∷ es) s t h v = elim (Option-cases (step zero_value c e s)) [
    | inl stuck ↦ ground (arith, stuck, h)
    | inr (u, went) ↦ run-Inv es u t (ground (arith, went, h)) (step-Inv e s u went v)
  ]
