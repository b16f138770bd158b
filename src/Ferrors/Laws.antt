-- ===== src/Ferrors/Laws.antt =====
-- How errors.Is and IsRetryable see through the errors of ferrors/errors.go.
use fortify.Base.{ℤ, ◌≡◌, sym, subst, Bool, true, inl, inr, ◌↔◌, arith, Bool-cases}
use fortify.Ferrors.{
  Sentinel, err_circuit_open, err_rate_limit_exceeded, err_timeout, deadline_exceeded, Error,
  sentinel, circuit_open_error, rate_limit_error, timeout_error, CircuitOpenError, RateLimitError,
  is, same, marked, wrapped, retryable, retryable_nil, joined,
}

-- `Holds e t`: the sentinel t is reached from e by Unwrap.
pub data Holds : Error → Sentinel → Type 0 where
  itself : (t : Sentinel) → Holds (sentinel t) t
  circuit :
      (e : CircuitOpenError) {t : Sentinel} → t ≡ err_circuit_open → Holds (circuit_open_error e) t
  rate :
      (e : RateLimitError) {t : Sentinel}
      → t ≡ err_rate_limit_exceeded
      → Holds (rate_limit_error e) t
  timeout : (d : ℤ) {t : Sentinel} → t ≡ err_timeout → Holds (timeout_error d) t
  deadline : (d : ℤ) {t : Sentinel} → t ≡ deadline_exceeded → Holds (timeout_error d) t
  under_retryable : {e : Error} {t : Sentinel} → Holds e t → Holds (retryable e) t
  under_marked : (b : Bool) {e : Error} {t : Sentinel} → Holds e t → Holds (marked b e) t
  under_wrapped : {e : Error} {t : Sentinel} → Holds e t → Holds (wrapped e) t
  left : {a : Error} (b : Error) {t : Sentinel} → Holds a t → Holds (joined a b) t
  right : (a : Error) {b : Error} {t : Sentinel} → Holds b t → Holds (joined a b) t

same-eq : (s t : Sentinel) → same s t ≡ true → s ≡ t
unfolding same
same-eq s t h = ground arith

same_self : (s : Sentinel) → same s s ≡ true
unfolding same
same_self s = ground arith

is-Holds : (e : Error) (t : Sentinel) → is e t ≡ true → Holds e t
unfolding is
is-Holds (sentinel s) t h = subst (λ x. Holds (sentinel s) x) (same-eq s t h) (itself s)
is-Holds (circuit_open_error e) t h = circuit e (sym (same-eq err_circuit_open t h))
is-Holds (rate_limit_error e) t h = rate e (sym (same-eq err_rate_limit_exceeded t h))
is-Holds (timeout_error d) t h = elim (Bool-cases (same err_timeout t)) [
  | inl y ↦ timeout d (sym (same-eq err_timeout t y))
  | inr n ↦ deadline d (sym (same-eq deadline_exceeded t (ground arith)))
]
is-Holds (retryable e) t h = under_retryable (is-Holds e t h)
is-Holds retryable_nil t h = absurd (cc)
is-Holds (marked b e) t h = under_marked b (is-Holds e t h)
is-Holds (wrapped e) t h = under_wrapped (is-Holds e t h)
is-Holds (joined a b) t h = elim (Bool-cases (is a t)) [
  | inl y ↦ left b (is-Holds a t y)
  | inr n ↦ right a (is-Holds b t (ground arith))
]

Holds-is : {e : Error} {t : Sentinel} → Holds e t → is e t ≡ true
unfolding is
Holds-is (itself t) = same_self t
Holds-is (circuit e p) = ground arith
Holds-is (rate e p) = ground arith
Holds-is (timeout d p) = ground arith
Holds-is (deadline d p) = ground arith
Holds-is (under_retryable h) = Holds-is h
Holds-is (under_marked b h) = Holds-is h
Holds-is (under_wrapped h) = Holds-is h
Holds-is (left b h) = ground (arith, Holds-is h)
Holds-is (right a h) = ground (arith, Holds-is h)

-- errors.Is finds a sentinel in an error exactly when the error, or one that it unwraps to at any
-- depth and in either part of a join, is that sentinel or a structured error made of it.
is_iff_Holds : (e : Error) (t : Sentinel) → (is e t ≡ true) ↔ Holds e t
is_iff_Holds e t = (is-Holds e t, λ h. Holds-is h)
