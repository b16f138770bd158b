-- ===== src/Base/Word.antt =====
-- Wrapping arithmetic of Go's int32 and int64, and division towards zero.
use Prim.Native.Nat.{ℕ, zero, suc, ◌+◌, ◌-◌, ◌*◌, ◌/◌, ◌%◌, ◌<◌}
use mathlib.Core.Path.{◌≡◌}
use native.Mathlib.Omega.{arith}
use fortify.Base.Tests.{ltb, if◌then◌else◌}
use fortify.Base.Int.{ℤ, pos, negsuc, to_word, from_word}

-- int32(n): the low 32 bits, read as a signed integer.
unfoldable pub int32 : ℤ → ℤ
int32 n =
    let w = to_word n % 4294967296 in if ltb w 2147483648 then pos w else negsuc (4294967295 - w)

pub int32_exact : (n : ℕ) → n < 2147483648 → int32 (pos n) ≡ pos n
unfolding int32
int32_exact n h = ground arith

-- a - b and a * b on int64.
unfoldable pub sub_int64 : ℤ → ℤ → ℤ
sub_int64 a b = from_word ((to_word a + (18446744073709551616 - to_word b)) % 18446744073709551616)

unfoldable pub mul_int64 : ℤ → ℤ → ℤ
mul_int64 a b = from_word (to_word a * to_word b % 18446744073709551616)

-- -n
abbrev pub neg_ℕ : ℕ → ℤ
neg_ℕ zero = pos 0
neg_ℕ (suc n) = negsuc n

-- a / b, cut towards zero.
unfoldable pub quot : ℤ → ℤ → ℤ
quot (pos a) (pos b) = pos (a / b)
quot (pos a) (negsuc b) = neg_ℕ (a / suc b)
quot (negsuc a) (pos b) = neg_ℕ (suc a / b)
quot (negsuc a) (negsuc b) = pos (suc a / suc b)
