-- ===== src/Tests/Pool.antt =====
-- Tests of the worker pool (process.go).
use mathlib.Core.List.{Perm}
use gojob.Prelude.{
  ℕ, suc, ◌+◌, ◌*◌, ◌≤◌, ◌≡◌, refl, true, false, Option, none, List, [], ◌∷◌, pos, arith, length,
}
use gojob.Options.{Config}
use gojob.Options.Valid.{IsValid}
use gojob.Process.{Env, run_one}
use gojob.Process.Execute.{Sends, ExecuteRuns, tasks, execute-process}
use gojob.Process.Pool.{
  Worker, idle, running, offering, gone, Pool, start, RunsOne, take, finish, deliver, drained,
  close, Reach, here, next,
}
use gojob.Process.Pool.Accounting.{delivered}
use gojob.Process.Pool.Completion.{closed_delivers_all}
use gojob.Process.Pool.Termination.{steps, steps_bounded}
use gojob.Task.{Error, Result}

-- An environment whose calls return 7 at once.
abbrev quiet : Env ℕ
quiet = record {
  call = λ n. (7, none);
  wait = λ n. none;
  race = λ n. none;
  zero_value = 0;
  started = pos 0;
  ended = pos 1;
}

-- A pool of one worker and one item, run to the end.
abbrev solo : Config
solo = record { workers = pos 1; retries = pos 1; backoff = none; timeout = pos 0 }

solo-IsValid : IsValid solo
solo-IsValid = record { some_worker = omega arith; some_attempt = omega arith }

-- fn returns the item's successor.
abbrev Fn : ℕ → ℕ × Option Error → Type 0
Fn x out = out ≡ (suc x, none)

abbrev Runs : ℕ → Result ℕ → Type 0
Runs = RunsOne Fn solo

abbrev env_of : ℕ → Env ℕ
env_of x = record quiet { call = λ n. (suc x, none) }

abbrev answer : ℕ → Result ℕ
answer x = run_one solo (env_of x)

answers : (x : ℕ) → (r : Result ℕ) × Runs x r
answers x = (answer x, (env_of x, (λ n. refl), refl))

abbrev pool_at : List ℕ → List (Worker ℕ ℕ) → List (ℕ × Result ℕ) → Pool ℕ ℕ
pool_at input workers sent = record {
  input = input;
  cancelled = false;
  workers = workers;
  sent = sent;
  dropped = [];
  out_closed = false;
}

abbrev done : Pool ℕ ℕ
done = record (pool_at [] (gone ∷ []) ((4, answer 4) ∷ [])) { out_closed = true }

solo_begins : start {Out = ℕ} solo (4 ∷ []) ≡ pool_at (4 ∷ []) (idle ∷ []) []
unfolding start
solo_begins = refl

solo_run : Reach Runs (pool_at (4 ∷ []) (idle ∷ []) []) done
solo_run =
    next {t = pool_at [] (gone ∷ []) ((4, answer 4) ∷ [])}
      (next {t = pool_at [] (idle ∷ []) ((4, answer 4) ∷ [])}
        (next {t = pool_at [] (offering 4 (answer 4) ∷ []) []}
          (next {t = pool_at [] (running 4 ∷ []) []} (next here (take [] [] 4 [] refl refl refl))
            (finish [] [] 4 (answer 4) refl (env_of 4, (λ n. refl), refl) refl))
          (deliver [] [] 4 (answer 4) refl refl))
        (drained [] [] refl refl refl))
      (close (refl, tt) refl refl)

solo_reach : Reach Runs (start solo (4 ∷ [])) done
solo_reach = rw solo_begins solo_run

closed_delivers_all_example : Perm (4 ∷ []) (delivered done)
closed_delivers_all_example =
    closed_delivers_all Runs solo (4 ∷ []) solo-IsValid solo_reach refl refl

steps_bounded_example : steps Runs solo_reach ≤ 3 * length {A = ℕ} (4 ∷ []) + 1 + 2
steps_bounded_example = steps_bounded Runs solo (4 ∷ []) solo_reach

-- The run of one item, by tasks.
one_task : Sends (ExecuteRuns solo) solo (tasks Fn solo (4 ∷ [])) (answer 4 ∷ []) true false
one_task =
    (execute-process Fn solo (4 ∷ []) (answer 4 ∷ []) true false).1
      (done, solo_reach, refl, refl, refl)
