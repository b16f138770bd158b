-- ===== src/RateLimit/Config.antt =====
-- ratelimit/config.go.
use fortify.Base.{Bool, if◌then◌else◌, Option, ℤ, pos, is_pos, ltb_ℤ, mul_int64}
use fortify.RateLimit.Errors.{Key, Context}

-- The callbacks OnAllow and OnLimit, the Metrics and the Logger only observe and are left out; the
-- Store is an argument of the limiter.
pub record Config : Type 0 where
  pub key_func : Option (Context → Key → Key)
  pub interval : ℤ
  pub rate : ℤ
  pub burst : ℤ
  pub max_tokens_per_request : ℤ
  pub fail_open : Bool

abbrev pub default_rate : ℤ
default_rate = pos 100

abbrev pub max_rate : ℤ
max_rate = pos 1000000

abbrev pub max_burst : ℤ
max_burst = pos 1000000

-- 1 ms and 24 h.
abbrev pub min_interval : ℤ
min_interval = pos 1000000

abbrev pub max_interval : ℤ
max_interval = pos 86400000000000

abbrev pub default_max_tokens_multiplier : ℤ
default_max_tokens_multiplier = pos 10

abbrev pub max_max_tokens_per_request : ℤ
max_max_tokens_per_request = pos 10000000

-- `if x <= 0 { x = d }` and `if x > hi { x = hi }`.
abbrev positive_or : ℤ → ℤ → ℤ
positive_or x d = if is_pos x then x else d

abbrev at_most : ℤ → ℤ → ℤ
at_most hi x = if ltb_ℤ hi x then hi else x

-- Durations are nanoseconds.
unfoldable pub set_defaults : Config → Config
set_defaults c =
    let rate = at_most max_rate (positive_or c.rate default_rate) in
    let burst = at_most max_burst (positive_or c.burst rate) in
    let interval = positive_or c.interval (pos 1000000000) in
    let floored = if ltb_ℤ interval min_interval then min_interval else interval in
    record c {
      rate = rate;
      burst = burst;
      interval = at_most max_interval floored;
      max_tokens_per_request =
          at_most max_max_tokens_per_request
            (positive_or c.max_tokens_per_request (mul_int64 burst default_max_tokens_multiplier));
    }
