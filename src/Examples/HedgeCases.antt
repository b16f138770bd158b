-- ===== src/Examples/HedgeCases.antt =====
-- Races of hedged attempts (hedge/).
use fortify.Base.{ℕ, ◌*◌, ◌≤◌, ◌≢◌, refl, ◌⊎◌, Option, none, some, List, [], ◌∷◌, pos}
use fortify.Ferrors.{sentinel, app}
use fortify.Hedge.Defs.{
  Config, set_defaults, Race, Event, fn_returns, receives, timer_fires, ctx_done, start, step, run,
}
use fortify.Hedge.Laws.{Explained}
use fortify.Hedge.Race.{works, Reached, attempt_limit, race-Explained, race_ends}

abbrev config : Config
config = record { hedge_delay = pos 0; max_attempts = pos 0 }

abbrev or_start : Option (Race ℕ) → Race ℕ
or_start none = start 0 (set_defaults config) none
or_start (some race) = race

abbrev after : List (Event ℕ) → Race ℕ
after es = or_start (run 0 (set_defaults config) es (start 0 (set_defaults config) none))

-- The first attempt fails, the second one succeeds.
abbrev won : List (Event ℕ)
won =
    timer_fires
    ∷ fn_returns (0, some (sentinel (app 1)))
    ∷ receives
    ∷ fn_returns (7, none)
    ∷ receives
    ∷ []

abbrev going : List (Event ℕ)
going = timer_fires ∷ fn_returns (0, some (sentinel (app 1))) ∷ receives ∷ []

won-Reached : Reached 0 config none won (after won)
unfolding set_defaults run start
won-Reached = refl

going-Reached : Reached 0 config none going (after going)
unfolding set_defaults run start
going-Reached = refl

race-Explained_example :
    ((after won).fired ≤ attempt_limit config)
    × (attempt_limit config ≤ 16)
    × Explained 0 (set_defaults config) (after won) (7, none)
unfolding set_defaults run start
race-Explained_example = race-Explained 0 config none won (after won) (7, none) won-Reached refl

race_ends_example :
    (works going ≤ 3 * attempt_limit config)
    × ((step 0 (set_defaults config) (fn_returns (7, none)) (after going) ≢ none)
        ⊎ (step 0 (set_defaults config) receives (after going) ≢ none)
        ⊎ (step 0 (set_defaults config) timer_fires (after going) ≢ none)
        ⊎ (step 0 (set_defaults config) ctx_done (after going) ≢ none))
unfolding set_defaults run start
race_ends_example = race_ends 0 config none going (after going) (7, none) going-Reached refl
