-- ===== src/Http/Sanitize/Laws.antt =====
-- What SanitizeKey of http/middleware.go leaves of a key.
use fortify.Base.{
  ℕ, zero, suc, ◌≤◌, ◌≡◌, refl, sym, ap, ◌∙◌, subst, true, false, ◌&&◌, if◌then◌else◌, ltb, leb,
  List, [], ◌∷◌, ◌++◌, length, take, length-take, ℤ, arith, All, Bool-cases, inl, inr, leb→le,
}
use fortify.Http.Sanitize.{
  printable, is_clean_ascii, is_ascii, needs_sanitization, keep_printable, cut, sanitize_ascii,
  key_limit, sanitize_key,
}

-- The reference: the printable bytes of a key, in order.
abbrev pub printables : List ℕ → List ℕ
printables [] = []
printables (c ∷ s) = let rest = printables s in if printable c then c ∷ rest else rest

pub append-assoc_one : (xs : List ℕ) (c : ℕ) (ys : List ℕ) → (xs ++ (c ∷ [])) ++ ys ≡ xs ++ (c ∷ ys)
append-assoc_one [] c ys = refl
append-assoc_one (x ∷ xs) c ys = ap (λ zs. x ∷ zs) (append-assoc_one xs c ys)

pub append_nil : (xs : List ℕ) → xs ++ [] ≡ xs
append_nil [] = refl
append_nil (x ∷ xs) = ap (λ zs. x ∷ zs) (append_nil xs)

pub keep_printable-printables :
    (s result : List ℕ) → keep_printable s result ≡ result ++ printables s
unfolding keep_printable
keep_printable-printables [] result = sym (append_nil result)
keep_printable-printables (c ∷ s) result = elim (Bool-cases (printable c)) [
  | inl good ↦
      rw good (
        keep_printable-printables s (result ++ (c ∷ [])) ∙ append-assoc_one result c (printables s))
  | inr bad ↦ rw bad (keep_printable-printables s result)
]

clean_printables : (s : List ℕ) → is_clean_ascii s ≡ true → printables s ≡ s
unfolding is_clean_ascii
clean_printables [] h = refl
clean_printables (c ∷ s) h = ground (arith, h, clean_printables s)

pub whole_printables : (s : List ℕ) → needs_sanitization s ≡ false → printables s ≡ s
unfolding needs_sanitization
whole_printables [] h = refl
whole_printables (c ∷ s) h = ground (arith, h, whole_printables s)

pub take_all : (n : ℕ) (s : List ℕ) → length s ≤ n → take n s ≡ s
take_all zero [] h = refl
take_all zero (c ∷ s) h = ground arith
take_all (suc n) [] h = refl
take_all (suc n) (c ∷ s) h = ap (λ zs. c ∷ zs) (take_all n s (omega (arith, h)))

pub cut-take : (n : ℕ) (s : List ℕ) → cut n s ≡ take n s
cut-take n s = elim (Bool-cases (ltb n (length s))) [
  | inl long ↦ rw long
  | inr short ↦ rw short (sym (take_all n s (ground (arith, short))))
]

pub All-take-printable :
    (n : ℕ) (s : List ℕ)
    → All (λ c. printable c ≡ true) s
    → All (λ c. printable c ≡ true) (take n s)
All-take-printable zero s h = tt
All-take-printable (suc n) [] h = tt
All-take-printable (suc n) (c ∷ s) h = (h.0, All-take-printable n s h.1)

pub All-printables : (s : List ℕ) → All (λ c. printable c ≡ true) (printables s)
All-printables [] = tt
All-printables (c ∷ s) = elim (Bool-cases (printable c)) [
  | inl good ↦ rw good (good, All-printables s)
  | inr bad ↦ rw bad (All-printables s)
]

sanitize_ascii-take : (key : List ℕ) (n : ℕ) → sanitize_ascii key n ≡ take n (printables key)
unfolding sanitize_ascii
sanitize_ascii-take key n = elim (Bool-cases (needs_sanitization key)) [
  | inl dirty ↦ rw dirty (cut-take n _ ∙ ap (take n) (keep_printable-printables key []))
  | inr whole ↦ rw whole (cut-take n key ∙ ap (take n) (sym (whole_printables key whole)))
]

fast_path :
    (key : List ℕ) (n : ℕ)
    → (is_clean_ascii key && leb (length key) n) ≡ true
    → key ≡ take n (printables key)
fast_path key n h =
    let clean : is_clean_ascii key ≡ true = ground (arith, h) in
    let short : leb (length key) n ≡ true = ground (arith, h) in
    sym (ap (take n) (clean_printables key clean) ∙ take_all n key (leb→le _ _ short))

-- SanitizeKey takes from an ASCII key its first maxLen printable bytes (256 by default), in order,
-- through each of its paths, so the result has no control byte and maxLen bytes at most.
pub sanitize_key_ascii :
    (sanitize_unicode : List ℕ → ℕ → List ℕ) (key : List ℕ) (max_len : ℤ)
    → is_ascii key ≡ true
    → let out = sanitize_key sanitize_unicode key max_len in
      (out ≡ take (key_limit max_len) (printables key))
      × All (λ c. printable c ≡ true) out
      × (length out ≤ key_limit max_len)
unfolding sanitize_key
sanitize_key_ascii sanitize_unicode key max_len h =
    let n = key_limit max_len in
    let same : sanitize_key sanitize_unicode key max_len ≡ take n (printables key) =
      elim (Bool-cases (is_clean_ascii key && leb (length key) n)) [
        | inl fast ↦ rw fast (fast_path key n fast)
        | inr slow ↦ rw (slow, h) (sanitize_ascii-take key n)
      ] in
    (
      same,
      subst (All (λ c. printable c ≡ true)) (sym same)
          (All-take-printable n (printables key) (All-printables key)),
      omega (arith, ap length same, length-take n (printables key)),
    )
