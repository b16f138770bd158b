-- ===== src/Middleware/Presets/Configs.antt =====
-- The configurations of middleware/presets.go, and those that its presets make of them for the
-- components.
use fortify.Base.{
  ℕ, ◌*◌, Bool, true, false, not, ◌&&◌, ◌==◌, leb, if◌then◌else◌, Option, none, some, [], Float64,
  ℤ, pos, is_pos,
}
use fortify.Ferrors
use fortify.Ferrors.{
  Error, is, canceled, deadline_exceeded, err_circuit_open, err_budget_exceeded,
  err_rate_limit_exceeded,
}
use fortify.CircuitBreaker.Counts.{Counts}
use fortify.CircuitBreaker.Config.{Config as BreakerConfig, sliding_window_disabled}
use fortify.Retry.Config.{Config as RetryConfig, backoff_exponential}
use fortify.Budget.Defs.{Cost, Config as BudgetConfig}
use fortify.Bulkhead.Config.{Config as BulkheadConfig}
use fortify.Timeout.{Config as TimeoutConfig}

pub record HttpClientConfig : Type 0 where
  pub timeout : ℤ
  pub max_retries : ℤ
  pub retry_initial_delay : ℤ
  pub cb_failure_threshold : ℕ
  pub cb_open_timeout : ℤ

pub record DatabaseQueryConfig : Type 0 where
  pub query_timeout : ℤ
  pub max_retries : ℤ
  pub cb_failure_threshold : ℕ

pub record RpcDownstreamConfig : Type 0 where
  pub call_timeout : ℤ
  pub max_retries : ℤ
  pub cb_failure_threshold : ℕ

-- Provider and Model are labels and are left out; the three last fields are those of Budget.
pub record LlmCallConfig (T : Type 0) : Type 0 where
  pub call_timeout : ℤ
  pub max_retries : ℤ
  pub retry_initial_delay : ℤ
  pub assume_idempotent : Bool
  pub cb_failure_threshold : ℕ
  pub cb_open_timeout : ℤ
  pub max_concurrent : ℤ
  pub max : Cost
  pub charge : Option (T × Option Error → Cost)
  pub on_exceeded : Bool

-- Durations are nanoseconds.
abbrev millis : ℕ → ℤ
millis n = pos (n * 1000000)

abbrev seconds : ℕ → ℤ
seconds n = pos (n * 1000000000)

abbrev positive_or : ℤ → ℤ → ℤ
positive_or d x = if is_pos x then x else d

abbrev nonzero_or : ℕ → ℕ → ℕ
nonzero_or d n = if n == 0 then d else n

unfoldable pub http_client_defaults : HttpClientConfig → HttpClientConfig
http_client_defaults c = record c {
  max_retries = positive_or (pos 3) c.max_retries;
  retry_initial_delay = positive_or (millis 100) c.retry_initial_delay;
  cb_failure_threshold = nonzero_or 5 c.cb_failure_threshold;
  cb_open_timeout = positive_or (seconds 30) c.cb_open_timeout;
}

unfoldable pub database_query_defaults : DatabaseQueryConfig → DatabaseQueryConfig
database_query_defaults c = record c {
  max_retries = positive_or (pos 2) c.max_retries;
  cb_failure_threshold = nonzero_or 10 c.cb_failure_threshold;
}

unfoldable pub rpc_downstream_defaults : RpcDownstreamConfig → RpcDownstreamConfig
rpc_downstream_defaults c = record c {
  max_retries = positive_or (pos 3) c.max_retries;
  cb_failure_threshold = nonzero_or 5 c.cb_failure_threshold;
}

unfoldable pub llm_call_defaults : {T : Type 0} → LlmCallConfig T → LlmCallConfig T
llm_call_defaults c = record c {
  max_retries = positive_or (pos 3) c.max_retries;
  retry_initial_delay = positive_or (millis 250) c.retry_initial_delay;
  cb_failure_threshold = nonzero_or 5 c.cb_failure_threshold;
  cb_open_timeout = positive_or (seconds 30) c.cb_open_timeout;
  max_concurrent = positive_or (pos 64) c.max_concurrent;
}

-- IsRetryable of HTTPClient.
unfoldable pub http_is_retryable : Error → Bool
http_is_retryable e =
    not (is e err_circuit_open) && not (is e canceled) && not (is e deadline_exceeded)

-- llmIsRetryable at a non-nil error.
unfoldable pub llm_is_retryable : Bool → Error → Bool
llm_is_retryable assume_idempotent e =
    if is e err_budget_exceeded
    then false
    else if is e err_circuit_open
    then false
    else if is e canceled
    then false
    else if is e deadline_exceeded
    then false
    else if is e err_rate_limit_exceeded
    then true
    else if Ferrors.is_retryable (some e)
    then true
    else assume_idempotent

-- The ReadyToTrip of all presets.
unfoldable pub trips_at : ℕ → Counts → Bool
trips_at threshold counts = leb threshold counts.consecutive_failures

abbrev pub timeout_config : ℤ → TimeoutConfig
timeout_config d = record { default_timeout = d; on_timeout = false }

module _ ⦃fl : Float64⦄ where
  -- The literals of the presets; the fields that they leave out are zero.
  abbrev pub breaker_config : ℕ → ℤ → ℕ → BreakerConfig
  breaker_config max_requests timeout threshold = record {
    ready_to_trip = some (trips_at threshold);
    on_state_change = false;
    is_successful = none;
    interval = seconds 60;
    timeout = timeout;
    max_requests = max_requests;
    sliding_window_type = sliding_window_disabled;
    sliding_window_size = pos 0;
    minimum_calls = pos 0;
    failure_rate_threshold = fl.literal 0 1;
  }

  abbrev retry_config : Option (Error → Bool) → ℤ → ℤ → ℤ → RetryConfig
  retry_config is_retryable max_attempts initial_delay max_delay = record {
    retryable_errors = [];
    non_retryable_errors = [];
    is_retryable = is_retryable;
    initial_delay = initial_delay;
    max_delay = max_delay;
    multiplier = fl.literal 2 1;
    max_attempts = max_attempts;
    backoff_policy = backoff_exponential;
    jitter = true;
  }

  -- The configurations in HTTPClient, DatabaseQuery, RPCDownstream and LLMCall, after setDefaults.
  unfoldable pub http_client_breaker : HttpClientConfig → BreakerConfig
  unfolding trips_at
  http_client_breaker c = breaker_config 3 c.cb_open_timeout c.cb_failure_threshold

  unfoldable pub http_client_retry : HttpClientConfig → RetryConfig
  unfolding http_is_retryable
  http_client_retry c =
      retry_config (some http_is_retryable) c.max_retries c.retry_initial_delay (pos 0)

  unfoldable pub database_query_breaker : DatabaseQueryConfig → BreakerConfig
  unfolding trips_at
  database_query_breaker c = breaker_config 2 (seconds 20) c.cb_failure_threshold

  unfoldable pub database_query_retry : DatabaseQueryConfig → RetryConfig
  database_query_retry c = retry_config none c.max_retries (millis 50) (millis 500)

  unfoldable pub rpc_downstream_breaker : RpcDownstreamConfig → BreakerConfig
  unfolding trips_at
  rpc_downstream_breaker c = breaker_config 3 (seconds 30) c.cb_failure_threshold

  unfoldable pub rpc_downstream_retry : RpcDownstreamConfig → RetryConfig
  rpc_downstream_retry c = retry_config none c.max_retries (millis 100) (seconds 2)

  unfoldable pub llm_call_breaker : {T : Type 0} → LlmCallConfig T → BreakerConfig
  unfolding trips_at
  llm_call_breaker c = breaker_config 3 c.cb_open_timeout c.cb_failure_threshold

  unfoldable pub llm_call_retry : {T : Type 0} → LlmCallConfig T → RetryConfig
  unfolding llm_is_retryable
  llm_call_retry c =
      retry_config (some (llm_is_retryable c.assume_idempotent)) c.max_retries c.retry_initial_delay
        (pos 0)

unfoldable pub llm_call_budget : {T : Type 0} → LlmCallConfig T → BudgetConfig T
llm_call_budget c = record {
  max = c.max;
  charge = c.charge;
  on_exceeded = c.on_exceeded;
  reset_after = pos 0;
}

unfoldable pub llm_call_bulkhead : {T : Type 0} → LlmCallConfig T → BulkheadConfig
llm_call_bulkhead c = record {
  queue_timeout = pos 0;
  max_concurrent = c.max_concurrent;
  max_queue = pos 0;
}
