-- ===== src/Base/Float.antt =====
-- float64 as an interface: Go's arithmetic on it is the hardware's (IEEE 754), so the models take
-- the type and the operations that the code calls as an instance argument.
use Prim.Native.Nat.{ℕ}
use mathlib.Core.Bool.{Bool}

pub record Float64 : Type 1 where
  pub F : Type 0
  -- float64(n) of an integer n ≥ 0
  pub of_nat : ℕ → F
  -- a decimal literal num/den
  pub literal : ℕ → ℕ → F
  pub fdiv : F → F → F
  -- x <= y, false when either is NaN
  pub fleb : F → F → Bool
  -- x < y, false when either is NaN
  pub fltb : F → F → Bool
  pub is_nan : F → Bool
  -- x == +Inf or x == -Inf
  pub is_inf : F → Bool
  pub fadd : F → F → F
  pub fsub : F → F → F
  pub fmul : F → F → F
  -- math.Pow(x, float64(n))
  pub fpow : F → ℕ → F
  pub fsqrt : F → F
  -- the conversion of a value x ≥ 0 to an integer type, which cuts its fraction off
  pub trunc : F → ℕ
