-- ===== src/Grpc/Sanitize.antt =====
-- sanitizeMetadataKey of grpc/interceptor.go on bytes.
pub mod Laws
use fortify.Base.{
  ℕ, Bool, true, false, ◌&&◌, ◌||◌, not, if◌then◌else◌, ltb, leb, ◌==◌, List, [], ◌∷◌, ◌++◌, length,
  take,
}

abbrev pub metadata_key_max_len : ℕ
metadata_key_max_len = 256

-- The loop that sets `clean`.
unfoldable pub is_clean : List ℕ → Bool
is_clean [] = true
is_clean (c ∷ s) = if ltb c 32 || c == 127 then false else is_clean s

-- The loop of WriteByte on the builder `b`.
unfoldable pub write_clean : List ℕ → List ℕ → List ℕ
write_clean [] b = b
write_clean (c ∷ s) b =
    let next = if leb 32 c && not (c == 127) then b ++ (c ∷ []) else b in write_clean s next

unfoldable pub sanitize_metadata_key : List ℕ → List ℕ
unfolding is_clean write_clean
sanitize_metadata_key key =
    let s = if ltb metadata_key_max_len (length key) then take metadata_key_max_len key else key in
    if is_clean s then s else write_clean s []
