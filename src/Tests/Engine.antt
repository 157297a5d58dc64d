-- ===== src/Tests/Engine.antt =====
-- Tests of options.go, task.go and process.go.
use Prim.Native.Nat.{min}
use gojob.Prelude.{
  ℕ, suc, ◌*◌, ◌^◌, ◌-ℤ◌, ◌≡◌, ◌==◌, refl, none, some, pos, negsuc, if◌then◌else◌, arith,
}
use gojob.Options.{Config, exp_backoff, shift_left}
use gojob.Options.Backoff.{exp_backoff_exact}
use gojob.Options.Valid.{IsValid}
use gojob.Process.{Env, run_one}
use gojob.Process.Attempts.{IsOutcome, run_one-IsOutcome}
use gojob.Task.{canceled, deadline_exceeded, other, Result, to_json}

-- The delay doubles from 100 until it meets the cap.
delays :
    (exp_backoff (pos 100) (pos 10000) (pos 1) ≡ pos 100)
    × (exp_backoff (pos 100) (pos 10000) (pos 4) ≡ pos 800)
    × (exp_backoff (pos 100) (pos 10000) (pos 9) ≡ pos 10000)
    × (exp_backoff (pos 100) (pos 10000) (pos 100) ≡ pos 10000)
unfolding exp_backoff shift_left ◌-ℤ◌
delays = (refl, refl, refl, refl)

-- A base near 2^62 wraps around to a shorter delay, since base times cap leaves the word.
delay_wraps : exp_backoff (pos (5 * 2 ^ 60)) (pos (9223372036854775807)) (pos 3) ≡ pos (2 ^ 62)
unfolding exp_backoff shift_left ◌-ℤ◌
delay_wraps = refl

exp_backoff_exact_example :
    exp_backoff (pos 100) (pos 10000) (pos (suc 5)) ≡ pos (min (100 * 2 ^ 5) 10000)
exp_backoff_exact_example =
    exp_backoff_exact 100 10000 5 (omega arith) (omega arith) (omega arith) (omega arith)

-- Three attempts, with a delay between them and a timeout.
abbrev patient : Config
patient = record { workers = pos 2; retries = pos 3; backoff = some (λ n. pos 5); timeout = pos 50 }

patient-IsValid : IsValid patient
patient-IsValid = record { some_worker = omega arith; some_attempt = omega arith }

-- fn fails at first and returns 7 from the second attempt on.
abbrev recovers : Env ℕ
recovers = record {
  call = λ n. if n == 1 then (0, some (other "refused")) else (7, none);
  wait = λ n. none;
  race = λ n. none;
  zero_value = 0;
  started = pos 1_000_000;
  ended = pos 4_500_000;
}

second_attempt :
    ((run_one patient recovers).attempts ≡ 2)
    × ((run_one patient recovers).value ≡ 7)
    × ((run_one patient recovers).err ≡ none)
unfolding run_one
second_attempt = (refl, refl, refl)

-- ctx is done in the wait before the second attempt.
interrupted_wait :
    (run_one patient (record recovers { wait = λ n. some canceled })).err ≡ some canceled
unfolding run_one
interrupted_wait = refl

-- The call of every attempt is cut off.
always_late :
    ((run_one patient (record recovers { race = λ n. some deadline_exceeded })).err
      ≡ some deadline_exceeded)
    × ((run_one patient (record recovers { race = λ n. some deadline_exceeded })).attempts ≡ 3)
unfolding run_one
always_late = (refl, refl)

run_one-IsOutcome_example :
    IsOutcome patient recovers
      (run_one patient recovers).attempts
      (run_one patient recovers).value
      (run_one patient recovers).err
run_one-IsOutcome_example = run_one-IsOutcome patient recovers patient-IsValid

abbrev timed : Result ℕ
timed = record {
  value = 7;
  err = none;
  attempts = 2;
  started_at = negsuc 1500;
  duration = pos 3_500_000;
}

json_units : ((to_json timed).started_at ≡ negsuc 1) × ((to_json timed).duration_ms ≡ pos 3)
unfolding to_json
json_units = (refl, refl)
