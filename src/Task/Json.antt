-- ===== src/Task/Json.antt =====
-- What the units of a line of JSON keep of a Result (task.go).
use gojob.Prelude.{◌+◌, ◌*◌, ◌<◌, ◌≤◌, pos_part, neg_part, arith}
use gojob.Task.{Result, to_json}

-- The time stamp is the last whole microsecond that is not after the start, also before 1970.
pub started_at_bounds {ℓ} :
    {A : Type ℓ} (r : Result A)
    → (pos_part (to_json r).started_at * 1000 + neg_part r.started_at
        ≤ pos_part r.started_at + neg_part (to_json r).started_at * 1000)
      × (pos_part r.started_at + neg_part (to_json r).started_at * 1000
          < pos_part (to_json r).started_at * 1000 + neg_part r.started_at + 1000)
unfolding to_json
started_at_bounds r = ground arith

-- The duration in milliseconds loses less than one millisecond, towards zero on both sides of it.
pub duration_ms_bounds {ℓ} :
    {A : Type ℓ} (r : Result A)
    → (pos_part (to_json r).duration_ms * 1000000 ≤ pos_part r.duration)
      × (pos_part r.duration < pos_part (to_json r).duration_ms * 1000000 + 1000000)
      × (neg_part (to_json r).duration_ms * 1000000 ≤ neg_part r.duration)
      × (neg_part r.duration < neg_part (to_json r).duration_ms * 1000000 + 1000000)
unfolding to_json
duration_ms_bounds r = ground arith
