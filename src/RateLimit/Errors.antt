-- ===== src/RateLimit/Errors.antt =====
-- ratelimit/errors.go, and what the package reads of a context.
use fortify.Base.{ℕ, Bool, true, false, Option, none, some, List, [], ◌∷◌, ◌==◌, ◌&&◌}
use fortify.Ferrors.{Error}

-- A string is the list of its bytes.
abbrev pub Key : Type 0
Key = List ℕ

-- `err` is what Err gives, and `values` what KeyFunc may read.
pub record Context : Type 0 where
  pub err : Option Error
  pub values : ℕ

-- The sentinels of the package; those of the contexts, of the stores and of the operations of
-- others; and rateLimitError with its key and its RetryAfter.
pub data LimitError : Type 0 where
  err_limit_exceeded err_storage_unavailable err_invalid_token_count err_excessive_tokens :
      LimitError
  err_store_closed err_key_limit_exceeded err_key_too_long err_wait_timeout : LimitError
  err_rate_limiter_closed : LimitError
  context_error : Error → LimitError
  storage_error : Error → LimitError
  operation_error : Error → LimitError
  rate_limit_error : Key → ℕ → LimitError

-- rateLimitError.Unwrap
unfoldable pub unwrap : LimitError → Option LimitError
unwrap (rate_limit_error key retry_after) = some err_limit_exceeded
unwrap _ = none

-- `a == b` on keys.
unfoldable pub same_key : Key → Key → Bool
same_key [] [] = true
same_key (x ∷ k) (y ∷ j) = x == y && same_key k j
same_key _ _ = false
