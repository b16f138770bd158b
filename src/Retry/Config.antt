-- ===== src/Retry/Config.antt =====
-- retry/config.go.
use fortify.Base.{Bool, if◌then◌else◌, Option, List, Float64, ℤ, pos, is_pos, is_neg}
use fortify.Ferrors.{Error, Sentinel}

-- `other` stands for the values that are none of the three constants.
pub data BackoffPolicy : Type 0 where
  backoff_exponential backoff_linear backoff_constant other : BackoffPolicy

module _ ⦃fl : Float64⦄ where
  -- The listed errors are sentinels; the callback OnRetry and the Logger are left out.
  pub record Config : Type 0 where
    pub retryable_errors : List Sentinel
    pub non_retryable_errors : List Sentinel
    pub is_retryable : Option (Error → Bool)
    pub initial_delay : ℤ
    pub max_delay : ℤ
    pub multiplier : fl.F
    pub max_attempts : ℤ
    pub backoff_policy : BackoffPolicy
    pub jitter : Bool

  -- The two tests of Multiplier, one after the other.
  unfoldable pub clamp_multiplier : fl.F → fl.F
  clamp_multiplier m =
      let m' = if fl.fleb m (fl.literal 0 1) then fl.literal 2 1 else m in
      if fl.fltb (fl.literal 100 1) m' then fl.literal 100 1 else m'

  -- 100 ms are 10^8 nanoseconds.
  unfoldable pub set_defaults : Config → Config
  unfolding clamp_multiplier
  set_defaults c = record c {
    max_attempts = if is_pos c.max_attempts then c.max_attempts else pos 3;
    initial_delay = if is_pos c.initial_delay then c.initial_delay else pos 100000000;
    max_delay = if is_neg c.max_delay then pos 0 else c.max_delay;
    multiplier = clamp_multiplier c.multiplier;
  }
