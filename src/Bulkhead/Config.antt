-- ===== src/Bulkhead/Config.antt =====
-- bulkhead/config.go.
use fortify.Base.{if◌then◌else◌, ℤ, pos, is_pos}

-- The callback OnRejected and the Logger only observe and are left out.
pub record Config : Type 0 where
  pub queue_timeout : ℤ
  pub max_concurrent : ℤ
  pub max_queue : ℤ

-- Durations are nanoseconds.
unfoldable pub set_defaults : Config → Config
set_defaults c = record {
  queue_timeout = if is_pos c.queue_timeout then c.queue_timeout else pos 0;
  max_concurrent = if is_pos c.max_concurrent then c.max_concurrent else pos 10;
  max_queue = if is_pos c.max_queue then c.max_queue else pos 0;
}
