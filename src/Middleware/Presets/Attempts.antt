-- ===== src/Middleware/Presets/Attempts.antt =====
-- What the presets of middleware/presets.go retry: their configurations at work in the loop of
-- retry/retry.go, with the errors of the components inside it.
use fortify.Base.{ℕ, ◌≡◌, refl, ap, ◌∙◌, false, Option, none, some, arith, Float64, ◌≤◌, ◌<◌, ℤ}
use fortify.Ferrors.{Error, sentinel, is, same, timeout_error, deadline_exceeded}
use fortify.Retry.Config.{set_defaults}
use fortify.Retry.Loop.{is_retryable, Attempt, execute}
use fortify.Retry.Classification.{not_retried_stops}
use fortify.Budget.Defs.{Cost, budget_exceeded_error, as_error}
use fortify.Timeout
use fortify.Timeout.{Call}
use fortify.Middleware.Presets.Configs.{
  HttpClientConfig, LlmCallConfig, http_client_defaults, http_client_retry, llm_call_defaults,
  llm_call_retry, timeout_config,
}

module _ ⦃fl : Float64⦄ where
  budget_not_retried :
      {T : Type 0} (cfg : LlmCallConfig T) (consumed max : Cost)
      → is_retryable
          (set_defaults (llm_call_retry (llm_call_defaults cfg)))
          (as_error (budget_exceeded_error consumed max))
        ≡ false
  unfolding is_retryable set_defaults llm_call_retry as_error is
  budget_not_retried cfg consumed max = refl

  timeout_not_retried :
      (cfg : HttpClientConfig) (limit : ℤ)
      → is_retryable
          (set_defaults (http_client_retry (http_client_defaults cfg)))
          (timeout_error limit)
        ≡ false
  unfolding is_retryable set_defaults http_client_retry is
  timeout_not_retried cfg limit = refl

timed_out :
    {T : Type 0} (zero_value : T) (timeout : ℤ) (call : Call T)
    → call.ctx_err ≡ some (sentinel deadline_exceeded)
    → call.parent_err ≡ none
    → let out = Timeout.execute (timeout_config timeout) zero_value timeout call in
      out.err ≡ some (timeout_error out.limit)
unfolding Timeout.execute same
timed_out zero_value timeout call over alive = ground (arith, over, alive)

module _ ⦃fl : Float64⦄ {T : Type 0} (zero_value : T) (world : ℕ → Attempt T) (i : ℕ) where
  -- In LLMCall, while the context lives, no attempt follows the attempt numbered i that the budget
  -- refused or that went over it, whatever AssumeIdempotent says.
  pub llm_call_budget_stops :
      (cfg : LlmCallConfig T) (consumed max : Cost)
      → ((i : ℕ) → (world i).ctx_err ≡ none)
      → ((i : ℕ) → (world i).interrupted ≡ none)
      → 0 < i
      → (world i).result.1 ≡ some (as_error (budget_exceeded_error consumed max))
      → (execute (llm_call_retry (llm_call_defaults cfg)) zero_value world).calls ≤ i
  llm_call_budget_stops cfg consumed max live waits h fails =
      not_retried_stops (llm_call_retry (llm_call_defaults cfg)) zero_value world i
        (as_error (budget_exceeded_error consumed max)) live waits h fails
        (budget_not_retried cfg consumed max)

  -- In HTTPClient, while the context lives, no attempt follows the attempt numbered i that the timeout
  -- around it has ended.
  http_client_timeout_stops :
      (cfg : HttpClientConfig) (call : Call T)
      → ((i : ℕ) → (world i).ctx_err ≡ none)
      → ((i : ℕ) → (world i).interrupted ≡ none)
      → 0 < i
      → call.ctx_err ≡ some (sentinel deadline_exceeded)
      → call.parent_err ≡ none
      → let out = Timeout.execute (timeout_config cfg.timeout) zero_value cfg.timeout call in
        (world i).result ≡ (out.value, out.err)
        → (execute (http_client_retry (http_client_defaults cfg)) zero_value world).calls ≤ i
  http_client_timeout_stops cfg call live waits h over alive runs =
      let out = Timeout.execute (timeout_config cfg.timeout) zero_value cfg.timeout call in
      not_retried_stops (http_client_retry (http_client_defaults cfg)) zero_value world i
        (timeout_error out.limit) live waits h
        (ap (λ (r : T × Option Error). r.1) runs ∙ timed_out zero_value cfg.timeout call over alive)
        (timeout_not_retried cfg out.limit)
