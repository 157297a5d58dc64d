-- ===== src/Process/Execute.antt =====
-- process.go: Execute; task.go: Task and TaskFunc. Execute is Process with the tasks as items.
use gojob.Prelude.{◌≡◌, ◌↔◌, sym, ap, ◌∙◌, Bool, Option, List, map}
use gojob.Options.{Config}
use gojob.Process.Pool.{Pool, start, RunsOne, Reach}
use gojob.Task.{Error, Result}
use gojob.Process.Pool.Recovered.{Reach-back}
use gojob.Process.Pool.Renamed.{map_pool, Reach-map, map-start, same_results}

-- A Task is its method Execute, given by how a call of it may come out.
pub record Task (T : Type 0) : Type 1 where
  pub execute : T × Option Error → Type 0

-- TaskFunc: the method calls the function.
unfoldable pub task_func : {T : Type 0} → (T × Option Error → Type 0) → Task T
task_func f = record { execute = f }

-- The results of Execute for a task: those of Process for the function that calls the method.
unfoldable pub ExecuteRuns : {T : Type 0} → Config → Task T → Result T → Type 0
ExecuteRuns cfg t r = RunsOne (λ task out. task.execute out) cfg t r

-- What the consumer of a pool has received, in order, whether the output is closed, and whether ctx is
-- done.
abbrev pub Sends {ℓ κ μ} :
    {In : Type ℓ} {Out : Type κ}
    → (In → Result Out → Type μ)
    → Config
    → List In
    → List (Result Out)
    → Bool
    → Bool
    → Type (ℓ ⊔ κ ⊔ μ)
Sends {In} {Out} Runs cfg items results closed cancelled =
    (s : Pool In Out) × Reach Runs (start cfg items) s
    × (map (λ p. p.1) s.sent ≡ results)
    × (s.out_closed ≡ closed)
    × (s.cancelled ≡ cancelled)

module _ {ℓ} {In : Type ℓ} {Out : Type 0} (fn : In → Out × Option Error → Type 0) (cfg : Config)
    (items : List In) where
  abbrev pub tasks : List (Task Out)
  tasks = map (λ x. task_func (fn x)) items

  -- Execute on the tasks that TaskFunc makes of some calls can have sent exactly what Process on the
  -- items can have sent for these calls: the same results in the same order, with the output closed
  -- or still open, and with ctx done or alive, whatever the goroutines do.
  pub execute-process :
      (results : List (Result Out)) (closed cancelled : Bool)
      → Sends (ExecuteRuns cfg) cfg tasks results closed cancelled
        ↔ Sends (RunsOne fn cfg) cfg items results closed cancelled
  unfolding ExecuteRuns task_func
  execute-process results closed cancelled =
      let h : In → Task Out = λ x. task_func (fn x) in
      (
        λ (t, p, sent, out_closed, ctx).
            let (s, q, same) =
              Reach-back h (RunsOne fn cfg) (ExecuteRuns cfg) (λ x r run. run) (start cfg items)
                (map-start Out h cfg items) p in
            (
              s,
              q,
              sym (same_results h s.sent) ∙ ap (λ u. map (λ y. y.1) u.sent) same ∙ sent,
              ap (λ u. u.out_closed) same ∙ out_closed,
              ap (λ u. u.cancelled) same ∙ ctx,
            ),
        λ (s, q, sent, out_closed, ctx). (
          map_pool h s,
          rw (map-start Out h cfg items) at
              (Reach-map h (RunsOne fn cfg) (ExecuteRuns cfg) (λ x r run. run) q),
          same_results h s.sent ∙ sent,
          out_closed,
          ctx,
        ),
      )
