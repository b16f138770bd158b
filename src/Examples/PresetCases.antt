-- ===== src/Examples/PresetCases.antt =====
-- Presets at work (middleware/presets.go).
use fortify.Base.{
  ℕ, ◌≤◌, ◌≡◌, ◌≢◌, refl, true, false, Option, none, some, List, [], ◌∷◌, pos, arith, is_pos,
}
use fortify.Ferrors.{Error, sentinel, app, deadline_exceeded}
use fortify.Budget.Defs.{Budget, zero_cost, budget_exceeded_error, as_error, new as new_budget}
use fortify.Retry.Loop.{Attempt, execute as retry_execute}
use fortify.Timeout
use fortify.Timeout.{Call}
use fortify.Middleware.Chain.{Next, Chain, Component, execute}
use fortify.Middleware.Presets.Configs.{
  HttpClientConfig, LlmCallConfig, llm_call_defaults, llm_call_breaker, llm_call_retry,
  llm_call_budget, llm_call_bulkhead, timeout_config,
}
use fortify.Middleware.Presets.{Packages, llm_call}
use fortify.Middleware.Presets.Order.{timed, inside, llm_call_layers}
use fortify.Middleware.Presets.Attempts.{llm_call_budget_stops}
use fortify.Middleware.LlmHedge.{
  LlmHedgeConfig, llm_hedge, Round, Event, attempt_returns, receives, timer_fires, start, run_all,
}
use fortify.Middleware.LlmHedge.Laws.{gives_up_early}
use fortify.Examples.Ratio.{ratio}

-- The world is the list of the components that were entered, newest first.
abbrev entering : ℕ → Component (List ℕ) ℕ ℕ
entering n = record { execute = λ ctx next w. next ctx (n ∷ w) }

abbrev packages : Packages (List ℕ) ℕ ℕ
packages = record {
  circuit_breaker = λ c. entering 1;
  retry = λ c. entering 2;
  timeout = λ c. record { execute = λ ctx d next w. next ctx (3 ∷ w) };
  bulkhead = λ c. entering 4;
  budget = λ b. entering 5;
}

abbrev llm_config : LlmCallConfig ℕ
llm_config = record {
  call_timeout = pos 1000;
  max_retries = pos 4;
  retry_initial_delay = pos 0;
  assume_idempotent = true;
  cb_failure_threshold = 0;
  cb_open_timeout = pos 0;
  max_concurrent = pos 0;
  max = record { tokens = pos 0; usd_micros = pos 0; calls = pos 9 };
  charge = none;
  on_exceeded = false;
}

abbrev or_new : Option (Chain (List ℕ) ℕ ℕ) → Chain (List ℕ) ℕ ℕ
or_new none = record { middlewares = [] }
or_new (some c) = c

abbrev answer : Next (List ℕ) ℕ ℕ
answer ctx w = (w, (42, none))

llm_call_layers_example :
    let c = llm_call_defaults llm_config in
    (is_pos (pos 1000) ≡ true)
    × ((b : Budget ℕ) × (new_budget (llm_call_budget c) ≡ some b)
        × (execute 0 answer [] (or_new (llm_call packages llm_config))
            ≡ inside
                (packages.bulkhead (llm_call_bulkhead c))
                (inside (packages.circuit_breaker (llm_call_breaker c)) (
                  inside (packages.retry (llm_call_retry c)) (
                    inside (packages.budget b) (
                      timed
                        (packages.timeout (timeout_config c.call_timeout))
                        c.call_timeout
                        answer))))
                0
                []))
unfolding llm_call new_budget
llm_call_layers_example =
    llm_call_layers packages llm_config (or_new (llm_call packages llm_config)) 0 answer [] refl

abbrev http_config : HttpClientConfig
http_config = record {
  timeout = pos 1000;
  max_retries = pos 0;
  retry_initial_delay = pos 0;
  cb_failure_threshold = 0;
  cb_open_timeout = pos 0;
}

-- Every attempt fails with the error.
abbrev failing : Error → ℕ → Attempt ℕ
failing e n = record { ctx_err = none; result = (0, some e); interrupted = none; random = (0, 1) }

llm_call_budget_stops_example :
    (retry_execute
      (llm_call_retry (llm_call_defaults llm_config))
      0
      (failing (as_error (budget_exceeded_error zero_cost llm_config.max)))).calls
    ≤ 1
llm_call_budget_stops_example =
    llm_call_budget_stops 0 (failing (as_error (budget_exceeded_error zero_cost llm_config.max))) 1
      llm_config zero_cost llm_config.max (λ i. refl) (λ i. refl) (omega arith) refl

abbrev late : Call ℕ
late = record { result = (7, none); ctx_err = some (sentinel deadline_exceeded); parent_err = none }

abbrev timing_out : ℕ → Attempt ℕ
timing_out n =
    let out = Timeout.execute (timeout_config (pos 1000)) 0 (pos 1000) late in
    record { ctx_err = none; result = (out.value, out.err); interrupted = none; random = (0, 1) }

abbrev three : LlmHedgeConfig
three = record {
  attempts = 3;
  hedge_after = pos 800000000;
  allow_cross_vendor = true;
  all_attempts_same_vendor = false;
}

abbrev or_start : Option (Round ℕ) → Round ℕ
or_start none = start 0 three none
or_start (some run) = run

abbrev after : List (Event ℕ) → Round ℕ
after es = or_start (run_all 0 three es (start 0 three none))

-- The second attempt wins; the first attempt alone fails at once.
abbrev won : List (Event ℕ)
won = timer_fires ∷ attempt_returns (7, none) ∷ receives ∷ []

abbrev first_fails : List (Event ℕ)
first_fails = attempt_returns (0, some (sentinel (app 1))) ∷ receives ∷ []

gives_up_early_example : (after first_fails).outcome ≢ none
unfolding llm_hedge run_all start
gives_up_early_example =
    gives_up_early 0 three three none first_fails (after first_fails) refl refl refl
