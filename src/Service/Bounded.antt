-- ===== src/Service/Bounded.antt =====
-- Consume on a sealed in-memory queue comes to its end (queue/consume.go, process.go,
-- queue/memq/memq.go).
use mathlib.Core.List.{Perm}
use gojob.Prelude.{ℕ, zero, suc, ◌+◌, ◌≤◌, ◌<◌, ◌≡◌, ◌∙◌, true, false, ◌++◌, pos, arith, inl, inr}
use gojob.Queue.Consume.{Config}
use gojob.Service.{left, Service, start, Step, Reach, next}
use gojob.Service.Answered.{succeeded, failed, closed_all_results}
use gojob.Service.Carried.{Reach-IsCarried}
use gojob.Service.Kept.{Reach-IsOwned}
use gojob.Service.Limited.{Reach-pending}
use gojob.Service.Measure.{weight, Step-weight}
use gojob.Service.Progress.{IsInternal}
use gojob.Service.Alive.{alive-Moves}
use gojob.Service.Untouched.{IsUntouched, IsUntouched-refl, IsUntouched-trans, Step-IsUntouched}

module _ {ℓ μ} {T : Type ℓ} {Out : Type μ} (cfg : Config) where
  -- A run of this many steps, without a call of Publish, Seal or Close and without the end of ctx.
  pub data Runs (s : Service T Out) : ℕ → Service T Out → Type (ℓ ⊔ μ) where
    none_made : Runs s 0 s
    one_more :
        {k : ℕ} {t u : Service T Out}
        → Runs s k t
        → (st : Step cfg t u) → IsInternal st
        → Runs s (suc k) u

  Runs-cons :
      {s t u : Service T Out} {k : ℕ} (st : Step cfg s t)
      → IsInternal st
      → Runs t k u
      → Runs s (suc k) u
  Runs-cons st inside none_made = one_more none_made st inside
  Runs-cons st inside (one_more r nt more) = one_more (Runs-cons st inside r) nt more

  Runs-Reach :
      {s t : Service T Out} {k : ℕ} → Reach cfg (start cfg) s → Runs s k t → Reach cfg (start cfg) t
  Runs-Reach p none_made = p
  Runs-Reach p (one_more r st inside) = next (Runs-Reach p r) st

  -- Each step uses up some of the weight.
  step_used :
      {s t : Service T Out} (n : ℕ) (st : Step cfg s t)
      → Reach cfg (start cfg) s
      → IsInternal st
      → cfg.max_deliveries ≡ pos n
      → 0 < n
      → weight n t < weight n s
  step_used n st p inside limit some_limit =
      Step-weight n cfg st inside (Reach-pending cfg n p limit some_limit) (Reach-IsCarried cfg p)
        (Reach-IsOwned cfg p)

  -- With a limit of deliveries Consume cannot go on for ever: as long as nobody calls Publish, Seal or
  -- Close or cancels ctx, the number of its steps, redeliveries included, is at most the weight of the
  -- state at the start less that of the state at the end.
  pub Runs-bounded :
      {s t : Service T Out} {k : ℕ} (n : ℕ)
      → Reach cfg (start cfg) s
      → cfg.max_deliveries ≡ pos n
      → 0 < n
      → Runs s k t
      → k + weight n t ≤ weight n s
  Runs-bounded n p limit some_limit none_made = omega arith
  Runs-bounded n p limit some_limit (one_more r st inside) = omega (
    arith,
    Runs-bounded n p limit some_limit r,
    step_used n st (Runs-Reach p r) inside limit some_limit,
  )

  -- A run to the end, on fuel.
  run_to_end :
      (fuel n : ℕ) (zero_value : Out) {s : Service T Out}
      → Reach cfg (start cfg) s
      → s.cancelled ≡ false
      → s.memq.queue.is_sealed ≡ true
      → cfg.max_deliveries ≡ pos n
      → 0 < n
      → weight n s ≤ fuel
      → (k : ℕ) × (t : Service T Out) × Runs s k t × (t.loop ≡ left) × IsUntouched s t
  run_to_end zero n zero_value {s} p alive done limit some_limit enough =
      elim (alive-Moves cfg zero_value p alive) [
        | inl (t, st, inside) ↦
            absurd (omega (arith, step_used n st p inside limit some_limit, enough))
        | inr (inl l) ↦ (0, s, none_made, l, IsUntouched-refl s)
        | inr (inr waits) ↦ let unsealed = waits.unsealed in cc
      ]
  run_to_end (suc fuel) n zero_value {s} p alive done limit some_limit enough =
      elim (alive-Moves cfg zero_value p alive) [
        | inl (t, st, inside) ↦
            let used = step_used n st p inside limit some_limit in
            let kept =
              Step-IsUntouched cfg st inside (Reach-IsCarried cfg p) (Reach-IsOwned cfg p) in
            let (k, u, r, l, same) =
              run_to_end fuel n zero_value (next p st) (kept.same_ctx ∙ alive)
                (kept.same_seal ∙ done) limit some_limit (omega (arith, used, enough)) in
            (suc k, u, Runs-cons st inside r, l, IsUntouched-trans kept same)
        | inr (inl l) ↦ (0, s, none_made, l, IsUntouched-refl s)
        | inr (inr waits) ↦ let unsealed = waits.unsealed in cc
      ]

  -- From every state that Consume reaches on a sealed queue, where a limit of deliveries is set, ctx is
  -- not done and the queue is not closed, there is a run of its own steps (calls of fn return, and the
  -- consumer receives) that closes the output, with a result for each payload that was published, as
  -- often as it was published.
  pub sealed_drains :
      {s : Service T Out} (n : ℕ)
      → (zero_value : Out) → Reach cfg (start cfg) s
      → s.cancelled ≡ false
      → s.memq.queue.is_sealed ≡ true
      → s.memq.queue.is_closed ≡ false
      → cfg.max_deliveries ≡ pos n
      → 0 < n
      → (k : ℕ) × (t : Service T Out) × Runs s k t
        × (t.loop ≡ left)
        × Perm s.memq.published (failed t.results ++ succeeded t.results)
  sealed_drains {s} n zero_value p alive done open_still limit some_limit =
      let (k, t, r, l, kept) =
        run_to_end (weight n s) n zero_value p alive done limit some_limit (omega arith) in
      let (all, _, _, _) =
        closed_all_results cfg (Runs-Reach p r) (kept.same_ctx ∙ alive)
          (kept.same_close ∙ open_still) l in
      (k, t, r, l, rw kept.same_published at all)
