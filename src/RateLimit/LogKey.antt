-- ===== src/RateLimit/LogKey.antt =====
-- sanitizeLogKey and sanitizeLogKeySlow of ratelimit/limiter.go. A string is the list of its bytes.
use mathlib.Core.List.{append_assoc}
use fortify.Base.{
  ℕ, suc, ◌+◌, ◌≡◌, refl, sym, subst, length-append, ap, ◌∙◌, Bool, false, ◌||◌, if◌then◌else◌, ltb,
  ◌==◌, inl, inr, Bool-cases, List, [], ◌∷◌, ◌++◌, map, take, drop, length, All,
}

-- c < 32 || c == 127
abbrev pub is_control : ℕ → Bool
is_control c = ltb c 32 || c == 127

-- The loop body of the slow path; '_' is byte 95.
abbrev pub replace_byte : ℕ → ℕ
replace_byte c = if is_control c then 95 else c

-- The copy of the prefix, and the loop from startIdx onwards.
unfoldable pub sanitize_log_key_slow : List ℕ → ℕ → List ℕ
sanitize_log_key_slow key start_idx = take start_idx key ++ map replace_byte (drop start_idx key)

-- The loop of the fast path from index i, where `rest` are the bytes from there on.
unfoldable pub scan : List ℕ → ℕ → List ℕ → List ℕ
scan key i [] = key
scan key i (c ∷ rest) =
    let onwards = scan key (i + 1) rest in
    if is_control c then sanitize_log_key_slow key i else onwards

unfoldable pub sanitize_log_key : List ℕ → List ℕ
sanitize_log_key key = scan key 0 key

take-prefix : (xs ys : List ℕ) → take (length xs) (xs ++ ys) ≡ xs
take-prefix [] ys = refl
take-prefix (x ∷ xs) ys = ap (λ zs. x ∷ zs) (take-prefix xs ys)

drop-prefix : (xs ys : List ℕ) → drop (length xs) (xs ++ ys) ≡ ys
drop-prefix [] ys = refl
drop-prefix (x ∷ xs) ys = drop-prefix xs ys

replace-append :
    (xs ys : List ℕ) → map replace_byte (xs ++ ys) ≡ map replace_byte xs ++ map replace_byte ys
replace-append [] ys = refl
replace-append (x ∷ xs) ys = ap (λ zs. replace_byte x ∷ zs) (replace-append xs ys)

scan-prefix :
    (clean rest : List ℕ) (i : ℕ)
    → length clean ≡ i
    → map replace_byte clean ≡ clean
    → scan (clean ++ rest) i rest ≡ map replace_byte (clean ++ rest)
unfolding scan sanitize_log_key_slow
scan-prefix clean [] i n m = sym (replace-append clean [] ∙ ap (λ zs. zs ++ []) m)
scan-prefix clean (c ∷ rest) i n m = elim (Bool-cases (is_control c)) [
  | inl bad ↦ rw bad (
      subst
        (λ j.
          take j (clean ++ c ∷ rest) ++ map replace_byte (drop j (clean ++ c ∷ rest))
          ≡ map replace_byte (clean ++ c ∷ rest))
        n
        (rw
          (
            take-prefix clean (c ∷ rest),
            drop-prefix clean (c ∷ rest),
            replace-append clean (c ∷ rest),
            m,
          )
          refl))
  | inr good ↦ rw good (
      subst (λ key. scan key (i + 1) rest ≡ map replace_byte key) (append_assoc clean (c ∷ []) rest)
        (scan-prefix (clean ++ c ∷ []) rest (i + 1)
          (length-append clean (c ∷ []) ∙ ap (λ k. k + 1) n)
          (replace-append clean (c ∷ []) ∙ rw (m, good))))
]

-- The sanitised key is the key with every control byte replaced by an underscore: the fast path,
-- the copied prefix and the slow loop together leave no byte out and touch no other byte.
sanitize_log_key-map : (key : List ℕ) → sanitize_log_key key ≡ map replace_byte key
unfolding sanitize_log_key
sanitize_log_key-map key = scan-prefix [] key 0 refl refl

replaced_safe :
    (key : List ℕ)
    → All (λ c. is_control c ≡ false) (map replace_byte key)
      × (length (map replace_byte key) ≡ length key)
replaced_safe [] = (tt, refl)
replaced_safe (c ∷ key) =
    let (safe, n) = replaced_safe key in
    let clean : is_control (replace_byte c) ≡ false = elim (Bool-cases (is_control c)) [
      | inl bad ↦ rw bad
      | inr good ↦ rw (good, good)
    ] in
    ((clean, safe), ap suc n)

replace-clean : (key : List ℕ) → All (λ c. is_control c ≡ false) key → map replace_byte key ≡ key
replace-clean [] h = refl
replace-clean (c ∷ key) (good, h) = rw (good, replace-clean key h)

-- A sanitised key is the key with every control byte replaced by an underscore (the fast path, the
-- copied prefix and the slow loop together), so no byte of it is a control byte, the key keeps its
-- length, and sanitising it once more changes nothing.
sanitize_log_key_safe :
    (key : List ℕ)
    → (sanitize_log_key key ≡ map replace_byte key)
      × All (λ c. is_control c ≡ false) (sanitize_log_key key)
      × (length (sanitize_log_key key) ≡ length key)
      × (sanitize_log_key (sanitize_log_key key) ≡ sanitize_log_key key)
sanitize_log_key_safe key =
    let (safe, n) = replaced_safe key in
    rw (sanitize_log_key-map key) (refl, safe, n, sanitize_log_key-map _ ∙ replace-clean _ safe)
