-- ===== src/Fallback/Laws.antt =====
-- What a caller of Execute (fallback/fallback.go) gets.
use fortify.Base.{
  Bool, false, ◌≡◌, refl, Bool-cases, Option-cases, true, ◌⊎◌, inl, inr, Option, none, some,
}
use fortify.Ferrors.{Error}
use fortify.Fallback.{Config, wanted, on_error, execute}

-- The error may be recovered from: ShouldFallback is nil or allows it.
abbrev pub allows : {T : Type 0} → Config T → Error → Bool
allows c e = elim c.should_fallback [ none ↦ true | some f ↦ f e ]

module _ {T : Type 0} where
  -- No fallback succeeds for the error: it is not allowed, there is none, or it fails itself.
  abbrev pub Unrecovered : Config T → Error → Type 0
  Unrecovered c e =
      (allows c e ≡ false)
      ⊎ (c.fallback ≡ none)
      ⊎ ((f : Error → T × Option Error) × (fe : Error) × (c.fallback ≡ some f)
          × ((f e).1 ≡ some fe))

  -- With a live context Execute returns the primary function's value when that succeeds; the fallback's
  -- value when the primary fails with an error that ShouldFallback allows and the fallback, which is
  -- there, succeeds; and otherwise, when the error is not allowed or the fallback is missing or
  -- fails, the zero value with the primary's error, never the fallback's.
  pub execute_sources :
      (c : Config T) (zero_value value : T) (err : Option Error)
      → let out = execute c zero_value none (value, err) in
        ((err ≡ none) × (out.err ≡ none) × (out.value ≡ value))
        ⊎ ((e : Error) × (f : Error → T × Option Error) × (err ≡ some e)
            × (allows c e ≡ true)
            × (c.fallback ≡ some f)
            × ((f e).1 ≡ none)
            × (out.err ≡ none)
            × (out.value ≡ (f e).0))
        ⊎ ((e : Error) × (err ≡ some e)
            × Unrecovered c e
            × (out.err ≡ some e)
            × (out.value ≡ zero_value))
  unfolding execute on_error wanted
  execute_sources c zero_value value none = inl (refl, refl, refl)
  execute_sources c zero_value value (some e) = elim (Bool-cases (allows c e)) [
    | inl w ↦ elim (Option-cases c.fallback) [
      | inl missing ↦ rw (w, missing) (inr (inr (e, refl, inr (inl refl), refl, refl)))
      | inr (f, has) ↦ elim (Option-cases (f e).1) [
        | inl ok ↦ rw (w, has, ok) (inr (inl (e, f, refl, w, refl, ok, refl, refl)))
        | inr (fe, failed) ↦
            rw (w, has, failed) (inr (inr (e, refl, inr (inr (f, fe, refl, failed)), refl, refl)))
      ]
    ]
    | inr w ↦ rw (w) (inr (inr (e, refl, inl w, refl, refl)))
  ]
