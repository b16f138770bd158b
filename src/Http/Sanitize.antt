-- ===== src/Http/Sanitize.antt =====
-- SanitizeKey of http/middleware.go on bytes. sanitizeUnicode calls the tables of the Unicode packages
-- and is an argument.
pub mod Laws
use fortify.Base.{
  ℕ, ◌+◌, ◌≤◌, ◌≡◌, refl, sym, ap, ◌∙◌, Bool, true, false, not, ◌&&◌, ◌||◌, if◌then◌else◌, ltb, leb,
  ◌==◌, List, [], ◌∷◌, ◌++◌, length, take, ℤ, pos, is_pos, pos_part, arith, All, Bool-cases, inl,
  inr,
}

abbrev pub default_max_key_length : ℤ
default_max_key_length = pos 256

-- c >= 32 && c != 127
abbrev pub printable : ℕ → Bool
printable c = leb 32 c && not (c == 127)

-- The loops isCleanASCII, isASCII, and the one of sanitizeASCII that looks for a byte to remove.
unfoldable pub is_clean_ascii : List ℕ → Bool
is_clean_ascii [] = true
is_clean_ascii (c ∷ s) = if ltb c 32 || ltb 126 c then false else is_clean_ascii s

unfoldable pub is_ascii : List ℕ → Bool
is_ascii [] = true
is_ascii (c ∷ s) = if ltb 127 c then false else is_ascii s

unfoldable pub needs_sanitization : List ℕ → Bool
needs_sanitization [] = false
needs_sanitization (c ∷ s) = if ltb c 32 || c == 127 then true else needs_sanitization s

-- The loop that appends the other bytes to `result`.
unfoldable pub keep_printable : List ℕ → List ℕ → List ℕ
keep_printable [] result = result
keep_printable (c ∷ s) result =
    let next = if printable c then result ++ (c ∷ []) else result in keep_printable s next

-- key[:maxLen] of a key that is longer.
abbrev pub cut : ℕ → List ℕ → List ℕ
cut max_len s = if ltb max_len (length s) then take max_len s else s

unfoldable pub sanitize_ascii : List ℕ → ℕ → List ℕ
unfolding needs_sanitization keep_printable
sanitize_ascii key max_len =
    if needs_sanitization key then cut max_len (keep_printable key []) else cut max_len key

-- maxLen, or its default.
abbrev pub key_limit : ℤ → ℕ
key_limit max_len = pos_part (if is_pos max_len then max_len else default_max_key_length)

unfoldable pub sanitize_key : (List ℕ → ℕ → List ℕ) → List ℕ → ℤ → List ℕ
unfolding is_clean_ascii is_ascii sanitize_ascii
sanitize_key sanitize_unicode key max_len =
    let n = key_limit max_len in
    if is_clean_ascii key && leb (length key) n
    then key
    else if is_ascii key
    then sanitize_ascii key n
    else sanitize_unicode key n
