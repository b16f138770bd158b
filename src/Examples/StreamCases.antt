-- ===== src/Examples/StreamCases.antt =====
-- A stalled stream (streamtimeout/).
use fortify.Base.{ℕ, ◌≤◌, ◌≡◌, refl, true, Option, none, some, List, [], ◌∷◌, pos, is_pos}
use fortify.Ferrors.{sentinel, canceled}
use fortify.StreamTimeout.{
  Config, stage_idle, Fired, Watch, Event, passes, marks, fires, fn_returns, start, run,
}
use fortify.StreamTimeout.Laws.{Overdue, cut_in_time}

abbrev config : Config
config = record { first_byte_timeout = pos 50; idle_timeout = pos 20; total_timeout = pos 0 }

-- Two chunks, then 25 ns without one.
abbrev stalled : List (Event ℕ)
stalled =
    passes 10
    ∷ marks
    ∷ passes 15
    ∷ marks
    ∷ passes 25
    ∷ fires stage_idle
    ∷ fn_returns (0, some (sentinel canceled))
    ∷ []

abbrev or_start : Option (Watch ℕ) → Watch ℕ
or_start none = start 0 config 100 none
or_start (some w) = w

abbrev after : Watch ℕ
after = or_start (run 0 config stalled (start 0 config 100 none))

cut_in_time_example :
    (◌≡◌ {A = ℕ} 0 0)
    × (is_pos (pos 20) ≡ true)
    × (20 ≤ 50)
    × ((f : Fired) × (after.fired ≡ some f) × (f.stage ≡ stage_idle) × Overdue 0 config after f)
unfolding run start
cut_in_time_example = cut_in_time 0 config stalled 100 none after 0 stage_idle 50 refl refl
