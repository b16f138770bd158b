-- ===== src/CircuitBreaker/TimeWindow/Refines.antt =====
-- timeWindow of circuitbreaker/window.go against its specification: the calls recorded in the last
-- `size` seconds of the whole history.
use fortify.Base.{
  ℕ, zero, suc, ◌≤◌, ◌<◌, ◌≡◌, refl, ap, ◌∙◌, Bool, not, Option, none, some, List, [], ◌∷◌, arith,
  length, replicate, length-set, length-replicate,
}
use native.Mathlib.Nat.{mod-lt}
use fortify.CircuitBreaker.TimeWindow.{
  TimeBucket, zero_bucket, TimeWindow, new_time_window, unix, bucket_index, record_call, stats,
  reset,
}
use fortify.CircuitBreaker.TimeWindow.Events.{Event, recent_calls, recent_failures, all_from}
use fortify.CircuitBreaker.TimeWindow.Laps.{
  AllLaps, bucket_index-mod, sum_stats-from, AllLaps-recorded,
}

-- The ring of a window against a history whose calls are at `now` or before.
pub record Refines (now : ℕ) (h : List Event) (w : TimeWindow) : Type 0 where
  pub positive : 0 < w.size
  pub room : length w.buckets ≡ w.size
  pub laps : AllLaps w.size 0 now h w.buckets

pub record_call-Refines :
    (success : Bool) (now later : ℕ) (h : List Event) (w : TimeWindow)
    → unix now ≤ unix later
    → Refines (unix now) h w
    → Refines
        (unix later)
        (record { second = unix later; failed = not success } ∷ h)
        (record_call success later w)
unfolding record_call
record_call-Refines success now later h w le r =
    let e : Event = record { second = unix later; failed = not success } in
    let i = bucket_index (unix later) w.size in
    let p = bucket_index-mod (unix later) w.size r.positive in
    record {
      positive = r.positive;
      room = length-set w.buckets i _ ∙ r.room;
      laps =
          AllLaps-recorded w.size (unix now) e h r.positive le i 0 w.buckets
            (omega (arith, r.room, p, mod-lt (unix later) r.positive)) (omega (arith, p)) r.laps;
    }

zero_Laps : (size n j : ℕ) → AllLaps size j 0 [] (replicate n zero_bucket)
zero_Laps size zero j = tt
zero_Laps size (suc n) j = (
  record { calls = refl; failures = refl; latest = tt; past = omega arith },
  zero_Laps size n (suc j),
)

AllLaps-later :
    (size j now later : ℕ) (bs : List TimeBucket)
    → now ≤ later
    → AllLaps size j now [] bs
    → AllLaps size j later [] bs
AllLaps-later size j now later [] le l = tt
AllLaps-later size j now later (b ∷ bs) le (lap, l) = (
  record {
    calls = lap.calls;
    failures = lap.failures;
    latest = tt;
    past = omega (arith, lap.past);
  },
  AllLaps-later size (suc j) now later bs le l,
)

empty-Refines :
    (n size now : ℕ)
    → 0 < size
    → n ≡ size
    → Refines now [] (record { buckets = replicate n zero_bucket; size = size })
empty-Refines n size now h e = record {
  positive = h;
  room = length-replicate n zero_bucket ∙ e;
  laps = AllLaps-later size 0 0 now (replicate n zero_bucket) (omega arith) (zero_Laps size n 0);
}

-- A call on the window at an instant: record(success), or reset for none.
pub record Call : Type 0 where
  pub instant : ℕ
  pub outcome : Option Bool

-- The calls made on a new window, newest first.
abbrev step : Call → Option Bool → TimeWindow → TimeWindow
step c (some success) w = record_call success c.instant w
step c none w = reset w

abbrev pub replay : ℕ → List Call → TimeWindow
replay size [] = new_time_window size
replay size (c ∷ older) = step c c.outcome (replay size older)

abbrev since : Call → Option Bool → List Event → List Event
since c (some success) h = record { second = unix c.instant; failed = not success } ∷ h
since c none h = []

-- What was recorded since the last reset, newest first.
abbrev pub history : List Call → List Event
history [] = []
history (c ∷ older) = since c c.outcome (history older)

-- The clock did not go back over a second, from call to call and up to `now`.
abbrev pub Clocked : ℕ → List Call → Type 0
Clocked now [] = Unit
Clocked now (c ∷ older) = (unix c.instant ≤ unix now) × Clocked c.instant older

Refines-step :
    (c : Call) (o : Option Bool) (now : ℕ) (h : List Event) (w : TimeWindow)
    → unix now ≤ unix c.instant
    → Refines (unix now) h w
    → Refines (unix c.instant) (since c o h) (step c o w)
unfolding reset
Refines-step c (some success) now h w le r = record_call-Refines success now c.instant h w le r
Refines-step c none now h w le r =
    empty-Refines (length w.buckets) w.size (unix c.instant) r.positive r.room

-- The instant of the newest call.
abbrev last : List Call → ℕ
last [] = 0
last (c ∷ older) = c.instant

last_before : (calls : List Call) (now : ℕ) → Clocked now calls → unix (last calls) ≤ unix now
last_before [] now k = omega arith
last_before (c ∷ older) now k = k.0

replay-Refines :
    (size now : ℕ) (calls : List Call)
    → 0 < size
    → Clocked now calls
    → Refines (unix (last calls)) (history calls) (replay size calls)
unfolding new_time_window
replay-Refines size now [] h k = empty-Refines size size (unix 0) h refl
replay-Refines size now (c ∷ older) h k =
    Refines-step c c.outcome (last older) (history older) (replay size older)
      (last_before older c.instant k.1) (replay-Refines size c.instant older h k.1)

step-size : (c : Call) (o : Option Bool) (w : TimeWindow) → (step c o w).size ≡ w.size
unfolding record_call reset
step-size c (some success) w = refl
step-size c none w = refl

replay-size : (size : ℕ) (calls : List Call) → (replay size calls).size ≡ size
unfolding new_time_window
replay-size size [] = refl
replay-size size (c ∷ older) = step-size c c.outcome (replay size older) ∙ replay-size size older

stats-Refines :
    (now later : ℕ) (h : List Event) (w : TimeWindow)
    → unix now ≤ unix later
    → Refines (unix now) h w
    → stats later w ≡ (recent_calls w.size (unix later) h, recent_failures w.size (unix later) h)
unfolding stats
stats-Refines now later h w le r =
    let (c, f) = all_from w.size (unix later) h in
    sum_stats-from w.size (unix later) (unix now) r.positive le 0 h w.buckets
      (omega (arith, r.room)) r.laps
    ∙ λ i. (c i, f i)

-- After any calls of record and reset on a new window of a positive number of seconds, with a clock
-- that does not go back over a second, stats(now) counts the calls recorded in the last `size`
-- seconds since the last reset, and those of them that failed.
pub stats-replay_timed :
    (size now : ℕ) (calls : List Call)
    → 0 < size
    → Clocked now calls
    → stats now (replay size calls) ≡ (
      recent_calls size (unix now) (history calls),
      recent_failures size (unix now) (history calls),
    )
stats-replay_timed size now calls h k =
    stats-Refines (last calls) now (history calls) (replay size calls) (last_before calls now k)
      (replay-Refines size now calls h k)
    ∙ ap
        (λ s.
          (recent_calls s (unix now) (history calls), recent_failures s (unix now) (history calls)))
        (replay-size size calls)
