-- ===== src/Grpc/Sanitize/Laws.antt =====
-- What sanitizeMetadataKey of grpc/interceptor.go leaves of a key, next to SanitizeKey of
-- http/middleware.go.
use fortify.Base.{
  ℕ, zero, suc, ◌≡◌, refl, sym, ap, ◌∙◌, true, List, [], ◌∷◌, ◌++◌, take, pos, arith, Bool-cases,
  inl, inr,
}
use fortify.Http.Sanitize.{printable, cut, is_ascii, sanitize_key}
use fortify.Http.Sanitize.Laws.{
  printables, append-assoc_one, append_nil, cut-take, sanitize_key_ascii,
}
use fortify.Grpc.Sanitize.{metadata_key_max_len, is_clean, write_clean, sanitize_metadata_key}

write_clean-printables : (s b : List ℕ) → write_clean s b ≡ b ++ printables s
unfolding write_clean
write_clean-printables [] b = sym (append_nil b)
write_clean-printables (c ∷ s) b = elim (Bool-cases (printable c)) [
  | inl good ↦
      rw good (write_clean-printables s (b ++ (c ∷ [])) ∙ append-assoc_one b c (printables s))
  | inr bad ↦ rw bad (write_clean-printables s b)
]

clean_whole : (s : List ℕ) → is_clean s ≡ true → printables s ≡ s
unfolding is_clean
clean_whole [] h = refl
clean_whole (c ∷ s) h = ground (arith, h, clean_whole s)

metadata_key-printables :
    (key : List ℕ) → sanitize_metadata_key key ≡ printables (take metadata_key_max_len key)
unfolding sanitize_metadata_key
metadata_key-printables key =
    let s = cut metadata_key_max_len key in
    elim (Bool-cases (is_clean s)) [
      | inl clean ↦
          rw clean (sym (clean_whole s clean) ∙ ap printables (cut-take metadata_key_max_len key))
      | inr dirty ↦
          rw dirty (write_clean-printables s [] ∙ ap printables (cut-take metadata_key_max_len key))
    ]

-- `ys` is a beginning of `xs`.
abbrev pub Begins : List ℕ → List ℕ → Type 0
Begins ys xs = (rest : List ℕ) × (xs ≡ ys ++ rest)

Begins-one_more : (n : ℕ) (ys s : List ℕ) → Begins ys (take n s) → Begins ys (take (suc n) s)
Begins-one_more n [] s (rest, h) = (take (suc n) s, refl)
Begins-one_more zero (y ∷ ys) s (rest, h) = ground (arith, h)
Begins-one_more (suc n) (y ∷ ys) [] (rest, h) = ground (arith, h)
Begins-one_more (suc n) (y ∷ ys) (c ∷ s) (rest, h) =
    let same : take n s ≡ ys ++ rest = ground (arith, h) in
    let head : c ≡ y = ground (arith, h) in
    let (rest', h') = Begins-one_more n ys s (rest, same) in (rest', ground (arith, head, h'))

take-Begins : (n : ℕ) (s : List ℕ) → Begins (printables (take n s)) (take n (printables s))
take-Begins zero s = ([], refl)
take-Begins (suc n) [] = ([], refl)
take-Begins (suc n) (c ∷ s) = elim (Bool-cases (printable c)) [
  | inl good ↦ let (rest, h) = take-Begins n s in rw good (rest, ap (λ zs. c ∷ zs) h)
  | inr bad ↦ rw bad (Begins-one_more n (printables (take n s)) (printables s) (take-Begins n s))
]

-- sanitizeMetadataKey keeps the printable bytes among the first 256 of a key, in order. SanitizeKey of
-- package http, with its default length, gives for the same ASCII key the same bytes, and perhaps
-- more after them: it removes before it cuts.
pub metadata_key-Begins :
    (sanitize_unicode : List ℕ → ℕ → List ℕ) (key : List ℕ)
    → is_ascii key ≡ true
    → (sanitize_metadata_key key ≡ printables (take 256 key))
      × Begins (sanitize_metadata_key key) (sanitize_key sanitize_unicode key (pos 0))
metadata_key-Begins sanitize_unicode key h =
    let same : sanitize_metadata_key key ≡ printables (take 256 key) =
      metadata_key-printables key in
    let (http, _, _) = sanitize_key_ascii sanitize_unicode key (pos 0) h in
    let (rest, more) = take-Begins 256 key in
    (same, (rest, http ∙ more ∙ ap (λ zs. zs ++ rest) (sym same)))
