-- ===== src/Web/Last.antt =====
-- The last event of the dashboard (web/web.go) counts every result of the job (stats.go).
use gojob.Prelude.{◌+◌, true, List, [], ◌∷◌, ◌++◌, map, length, ℤ, pos, ◌-ℤ◌}
use gojob.Stats.{Stats, Count}
use gojob.Stats.Counts.{error_count}
use gojob.Task.{Result, milliseconds}
use gojob.Web.{Update, Moment, counted, ticked, job_done}

-- A stretch in which the job runs and the client stays, with the additions that it makes.
pub data IsRunning : List Moment → List Count → Type 0 where
  here : IsRunning [] []
  counts :
      {es : List Moment} {cs : List Count} (c : Count)
      → IsRunning es cs
      → IsRunning (counted c ∷ es) (c ∷ cs)
  ticks :
      {es : List Moment} {cs : List Count} (later : List Count) (now : ℤ)
      → IsRunning es cs
      → IsRunning (ticked later now ∷ es) (later ++ cs)

module _ {ℓ} {A : Type ℓ} where
  -- The update of a handle that has counted these results too, at this time.
  abbrev pub final_update : Stats → List (Result A) → ℤ → Update
  final_update s rs now = record {
    total = s.total;
    done = pos (s.done + length rs);
    succeeded = pos (s.done + length rs) -ℤ pos (s.failed + error_count rs);
    failed = pos (s.failed + error_count rs);
    elapsed_ms = milliseconds (now -ℤ s.started);
    finished = true;
  }

-- Once `fin` is closed, the ticker may still win some selects before the final event.
abbrev pub late_ticks : List ℤ → ℤ → List Moment
late_ticks ats now = map (ticked []) ats ++ job_done now ∷ []
