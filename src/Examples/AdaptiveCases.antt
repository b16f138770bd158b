-- ===== src/Examples/AdaptiveCases.antt =====
-- Adaptive limiters, fallbacks, timeouts and sanitised keys at work (adaptive/, fallback/, timeout/,
-- ratelimit/).
use fortify.Base.{
  ◌+◌, ◌≤◌, ℕ, List, ◌≡◌, refl, ◌⊎◌, inl, inr, ◌≢◌, true, false, Option, none, some, [], arith, pos,
  ◌∷◌,
}
use fortify.Ferrors.{Error, sentinel, app, deadline_exceeded}
use fortify.Adaptive.Config.{Config, algorithm_vegas, set_defaults}
use fortify.Adaptive.Limiter.{new, try_acquire, complete, vegas_on_success, release, on_failure}
use fortify.Adaptive.Bounds.{InRange}
use fortify.Adaptive.Traces.{
  System, Event, tries, adapts, leaves, start, run_events, reachable-InRange,
}
use fortify.Fallback
use fortify.Fallback.Laws.{allows, Unrecovered, execute_sources}
use fortify.Timeout
use fortify.Timeout.{Call}
use fortify.Timeout.Laws.{TimedOut, execute_cases}
use fortify.Examples.Ratio.{ratio}

abbrev config : Config
config = record {
  on_limit_change = true;
  algorithm = algorithm_vegas;
  initial_limit = pos 10;
  min_limit = pos 2;
  max_limit = pos 20;
  success_threshold = pos 3;
  vegas_alpha = pos 3;
  vegas_beta = pos 6;
  vegas_min_samples = pos 1;
  gradient_min_samples = pos 1;
  gradient_smoothing = (1, 5);
}

-- Two calls overlap; the second loses a swap first. The first succeeds, and the second fails.
abbrev calls : List Event
calls =
    tries (pos 0) 0
    ∷ tries (pos 0) 0
    ∷ tries (pos 1) 0
    ∷ adapts (pos 50) none
    ∷ leaves
    ∷ adapts (pos 60) (some (sentinel (app 1)))
    ∷ tries (pos 1) 1
    ∷ []

abbrev or_start : Option System → System
or_start none = start config
or_start (some s) = s

abbrev later : System
later = or_start (run_events calls (start config))

reachable-InRange_example :
    InRange 2 20 later.limiter.limit
    × (later.limiter.in_flight ≡ pos (later.running + later.leaving))
    × (later.running + later.leaving ≤ 20)
unfolding set_defaults run_events new try_acquire complete vegas_on_success release on_failure
    fortify.Base.int32 fortify.Base.add_int64
reachable-InRange_example = reachable-InRange 2 20 config calls later refl refl (omega arith) refl

abbrev rescued : Fallback.Config ℕ
rescued = record {
  fallback = some (λ e. (9, none));
  should_fallback = none;
  has_on_fallback = true;
  has_on_success = false;
}

execute_sources_example :
    let out = Fallback.execute rescued 0 none (0, some (sentinel (app 1))) in
    ((some (sentinel (app 1)) ≡ none) × (out.err ≡ none) × (out.value ≡ 0))
    ⊎ ((e : Error) × (f : Error → ℕ × Option Error) × (some (sentinel (app 1)) ≡ some e)
        × (allows rescued e ≡ true)
        × (rescued.fallback ≡ some f)
        × ((f e).1 ≡ none)
        × (out.err ≡ none)
        × (out.value ≡ (f e).0))
    ⊎ ((e : Error) × (some (sentinel (app 1)) ≡ some e)
        × Unrecovered rescued e
        × (out.err ≡ some e)
        × (out.value ≡ 0))
execute_sources_example = execute_sources rescued 0 0 (some (sentinel (app 1)))

abbrev timeouts : Timeout.Config
timeouts = record { default_timeout = pos 0; on_timeout = true }

-- The deadline passes while the operation runs.
abbrev late : Call ℕ
late = record { result = (7, none); ctx_err = some (sentinel deadline_exceeded); parent_err = none }

execute_cases_example :
    let out = Timeout.execute timeouts 0 (pos 5) late in
    ((late.ctx_err ≡ none) × ((out.value, out.err) ≡ late.result) × (out.notified ≡ false))
    ⊎ ((late.ctx_err ≢ none)
        × (late.parent_err ≢ none)
        × (out.value ≡ 0)
        × (out.err ≡ late.parent_err)
        × (out.notified ≡ false))
    ⊎ ((late.ctx_err ≢ none) × TimedOut timeouts 0 (pos 5) late)
execute_cases_example = execute_cases timeouts 0 (pos 5) late (inr (inl refl))

-- "a", a line feed, "b".
abbrev key : List ℕ
key = 97 ∷ 10 ∷ 98 ∷ []
