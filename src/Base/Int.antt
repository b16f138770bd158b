-- ===== src/Base/Int.antt =====
-- Go's signed integers (int, int64, time.Duration) over the native numbers, and a signed offset
-- added to an instant.
use Prim.Native.Nat.{ℕ, suc, ◌+◌, ◌-◌, ◌%◌, ◌<◌}
use mathlib.Core.Bool.{Bool, true, false}
use mathlib.Core.Path.{◌≡◌}
use native.Mathlib.Omega.{arith}
use fortify.Base.Tests.{ltb, leb, if◌then◌else◌}

-- `negsuc n` is -(n + 1).
pub data ℤ : Type 0 where
  pos : ℕ → ℤ
  negsuc : ℕ → ℤ

abbrev pub pos_part : ℤ → ℕ
pos_part (pos n) = n
pos_part (negsuc n) = 0

abbrev pub neg_part : ℤ → ℕ
neg_part (pos n) = 0
neg_part (negsuc n) = suc n

-- x > 0
abbrev pub is_pos : ℤ → Bool
is_pos (pos n) = ltb 0 n
is_pos (negsuc n) = false

-- x < 0
abbrev pub is_neg : ℤ → Bool
is_neg (pos n) = false
is_neg (negsuc n) = true

-- a < b
abbrev pub ltb_ℤ : ℤ → ℤ → Bool
ltb_ℤ a b = ltb (pos_part a + neg_part b) (pos_part b + neg_part a)

-- a <= b
abbrev pub leb_ℤ : ℤ → ℤ → Bool
leb_ℤ a b = leb (pos_part a + neg_part b) (pos_part b + neg_part a)

-- An instant plus a duration, `now.Add(d)`. Instants are nanoseconds since the Unix epoch.
abbrev pub add_duration : ℕ → ℤ → ℕ
add_duration t (pos n) = t + n
add_duration t (negsuc n) = t - suc n

-- The wrap-around of uint32 and uint64.
abbrev pub u32 : ℕ → ℕ
u32 n = n % 4294967296

abbrev pub u64 : ℕ → ℕ
u64 n = n % 18446744073709551616

abbrev pub max_uint32 : ℕ
max_uint32 = 4294967295

-- int64: the two's complement pattern of an integer, and the integer of a pattern.
abbrev pub to_word : ℤ → ℕ
to_word (pos n) = n % 18446744073709551616
to_word (negsuc n) = 18446744073709551615 - n % 18446744073709551616

abbrev pub from_word : ℕ → ℤ
from_word w = if ltb w 9223372036854775808 then pos w else negsuc (18446744073709551615 - w)

-- a + b on int64, which wraps around.
unfoldable pub add_int64 : ℤ → ℤ → ℤ
add_int64 a b = from_word ((to_word a + to_word b) % 18446744073709551616)

pub add_int64_exact :
    (m n : ℕ) → m + n < 9223372036854775808 → add_int64 (pos m) (pos n) ≡ pos (m + n)
unfolding add_int64
add_int64_exact m n h = ground arith
