-- ===== src/Ferrors.antt =====
-- ferrors/errors.go: the sentinel errors, the structured errors that wrap them, and the
-- classification of errors by errors.Is and errors.As.
pub mod Laws
use Prim.Native.String.{String}
use fortify.Base.{
  ℕ, ℤ, ◌≡◌, refl, Bool, true, false, ◌||◌, Option, none, some, List, [], ◌∷◌, ◌==◌, if◌then◌else◌,
}

-- Values made by errors.New: they are told apart by identity. `canceled` and `deadline_exceeded`
-- are those of package context, `err_budget_exceeded` that of package budget; `app` stands for the ones of the application.
pub data Sentinel : Type 0 where
  err_circuit_open err_rate_limit_exceeded err_bulkhead_full err_timeout : Sentinel
  err_max_attempts_reached err_budget_exceeded canceled deadline_exceeded : Sentinel
  app : ℕ → Sentinel

-- `a == b` on error values that are sentinels.
unfoldable pub same : Sentinel → Sentinel → Bool
same err_circuit_open err_circuit_open = true
same err_rate_limit_exceeded err_rate_limit_exceeded = true
same err_bulkhead_full err_bulkhead_full = true
same err_timeout err_timeout = true
same err_max_attempts_reached err_max_attempts_reached = true
same err_budget_exceeded err_budget_exceeded = true
same canceled canceled = true
same deadline_exceeded deadline_exceeded = true
same (app a) (app b) = a == b
same _ _ = false

pub record CircuitOpenError : Type 0 where
  pub name : String
  pub state : String
  pub retry_after : ℕ
  pub total_requests : ℕ
  pub total_failures : ℕ
  pub consecutive_failures : ℕ
  pub consecutive_successes : ℕ

pub record RateLimitError : Type 0 where
  pub key : String
  pub retry_after : ℕ

-- The non-nil values of type error. `retryable` is *retryableError (`retryable_nil` holds nil),
-- `marked b e` an application's RetryableError whose Retryable() is b and which unwraps to e,
-- `wrapped` the result of fmt.Errorf with %w, and `joined` that of errors.Join.
pub data Error : Type 0 where
  sentinel : Sentinel → Error
  circuit_open_error : CircuitOpenError → Error
  rate_limit_error : RateLimitError → Error
  timeout_error : ℤ → Error
  retryable : Error → Error
  retryable_nil : Error
  marked : Bool → Error → Error
  wrapped : Error → Error
  joined : Error → Error → Error

unfoldable pub as_retryable : Option Error → Error
as_retryable none = retryable_nil
as_retryable (some e) = retryable e

-- The errors that Unwrap gives, as far as they are sentinels of the structured errors.
unfoldable pub unwrap_circuit_open : CircuitOpenError → Sentinel
unwrap_circuit_open e = err_circuit_open

unfoldable pub unwrap_rate_limit : RateLimitError → Sentinel
unwrap_rate_limit e = err_rate_limit_exceeded

unfoldable pub unwrap_timeout : ℤ → List Sentinel
unwrap_timeout d = err_timeout ∷ deadline_exceeded ∷ []

unfoldable pub any_same : List Sentinel → Sentinel → Bool
any_same [] t = false
any_same (s ∷ ss) t = same s t || any_same ss t

-- errors.Is at a sentinel target: the error or one that it unwraps to is the target.
unfoldable pub is : Error → Sentinel → Bool
unfolding same any_same unwrap_circuit_open unwrap_rate_limit unwrap_timeout
is (sentinel s) t = same s t
is (circuit_open_error e) t = same (unwrap_circuit_open e) t
is (rate_limit_error e) t = same (unwrap_rate_limit e) t
is (timeout_error d) t = any_same (unwrap_timeout d) t
is (retryable e) t = is e t
is retryable_nil t = false
is (marked b e) t = is e t
is (wrapped e) t = is e t
is (joined a b) t = is a t || is b t

-- errors.As at the interface RetryableError, and then Retryable(): the first implementation in
-- the depth-first order of the tree answers.
unfoldable pub find_retryable : Error → Option Bool
find_retryable (sentinel s) = none
find_retryable (circuit_open_error e) = none
find_retryable (rate_limit_error e) = none
find_retryable (timeout_error d) = none
find_retryable (retryable e) = some true
find_retryable retryable_nil = some true
find_retryable (marked b e) = some b
find_retryable (wrapped e) = find_retryable e
find_retryable (joined a b) = elim (find_retryable a) [ some r ↦ some r | none ↦ find_retryable b ]

-- IsRetryable
unfoldable pub is_retryable : Option Error → Bool
unfolding find_retryable
is_retryable none = false
is_retryable (some e) = elim (find_retryable e) [ none ↦ false | some r ↦ r ]
