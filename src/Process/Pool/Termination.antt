-- ===== src/Process/Pool/Termination.antt =====
-- Every run of the pool is finite, and one that cannot go on has closed the output (process.go).
use gojob.Prelude.{
  ℕ, zero, suc, ◌+◌, ◌*◌, ◌≤◌, ◌<◌, ◌≡◌, refl, ap, ◌∙◌, ◌⊎◌, inl, inr, false, if◌then◌else◌, List,
  [], ◌∷◌, ◌++◌, All, length, replicate, pos_part, arith,
}
use gojob.Options.{Config}
use gojob.Task.{Result}
use gojob.Process.Pool.{
  Worker, idle, running, offering, gone, Pool, start, Step, take, finish, deliver, drop, drained,
  stop, cancel, close, Reach, here, next, IsGone,
}

-- The steps that a worker can still make before it wants another item.
weight {ℓ κ} : {In : Type ℓ} {Out : Type κ} → Worker In Out → ℕ
weight idle = 1
weight (running x) = 3
weight (offering x r) = 2
weight gone = 0

work {ℓ κ} : {In : Type ℓ} {Out : Type κ} → List (Worker In Out) → ℕ
unfolding weight
work [] = 0
work (w ∷ ws) = weight w + work ws

work-append {ℓ κ} :
    {In : Type ℓ} {Out : Type κ} (ws vs : List (Worker In Out))
    → work (ws ++ vs) ≡ work ws + work vs
unfolding work
work-append [] vs = omega arith
work-append (w ∷ ws) vs = omega (arith, work-append ws vs)

work-replicate {ℓ κ} :
    (In : Type ℓ) (Out : Type κ) (n : ℕ) → work (replicate {A = Worker In Out} n idle) ≡ n
unfolding work
work-replicate In Out zero = refl
work-replicate In Out (suc n) = omega (arith, work-replicate In Out n)

-- An upper bound on the steps that are left.
measure {ℓ κ} : {In : Type ℓ} {Out : Type κ} → Pool In Out → ℕ
measure s =
    3 * length s.input
    + work s.workers
    + (if s.cancelled then 0 else 1)
    + (if s.out_closed then 0 else 1)

module _ {ℓ κ μ} {In : Type ℓ} {Out : Type κ} (Runs : In → Result Out → Type μ) where
  work_at :
      (ws pre post : List (Worker In Out)) (w : Worker In Out)
      → ws ≡ pre ++ w ∷ post
      → work ws ≡ work pre + work (w ∷ post)
  work_at ws pre post w e = ap work e ∙ work-append pre (w ∷ post)

  Step-measure : {s t : Pool In Out} → Step Runs s t → measure t < measure s
  unfolding measure work
  Step-measure {s} (take pre post x rest w i e) = ground (
    arith,
    work_at s.workers pre post idle w,
    work_at (pre ++ running x ∷ post) pre post (running x) refl,
  )
  Step-measure {s} (finish pre post x r w h e) = ground (
    arith,
    work_at s.workers pre post (running x) w,
    work_at (pre ++ offering x r ∷ post) pre post (offering x r) refl,
  )
  Step-measure {s} (deliver pre post x r w e) = ground (
    arith,
    work_at s.workers pre post (offering x r) w,
    work_at (pre ++ idle ∷ post) pre post idle refl,
  )
  Step-measure {s} (drop pre post x r w c e) = ground (
    arith,
    work_at s.workers pre post (offering x r) w,
    work_at (pre ++ gone ∷ post) pre post gone refl,
  )
  Step-measure {s} (drained pre post w i e) =
      ground
        (arith, work_at s.workers pre post idle w, work_at (pre ++ gone ∷ post) pre post gone refl)
  Step-measure {s} (stop pre post w c e) =
      ground
        (arith, work_at s.workers pre post idle w, work_at (pre ++ gone ∷ post) pre post gone refl)
  Step-measure {s} (cancel c e) = ground arith
  Step-measure {s} (close g c e) = ground arith

  abbrev pub steps : {s t : Pool In Out} → Reach Runs s t → ℕ
  steps here = 0
  steps (next r st) = suc (steps r)

  steps-measure : {s t : Pool In Out} (r : Reach Runs s t) → steps r + measure t ≤ measure s
  steps-measure here = omega arith
  steps-measure (next r st) = omega (arith, steps-measure r, Step-measure st)

  -- Every run takes at most three steps for each item, one for each worker, and two more: the pool
  -- makes no infinite run, whatever the order of its goroutines.
  pub steps_bounded :
      (cfg : Config) (items : List In) {s : Pool In Out} (r : Reach Runs (start cfg items) s)
      → steps r ≤ 3 * length items + pos_part cfg.workers + 2
  unfolding start measure
  steps_bounded cfg items r =
      omega (arith, steps-measure r, work-replicate In Out (pos_part cfg.workers))

  -- The first worker that has not returned.
  busy_or_gone :
      (ws : List (Worker In Out))
      → All IsGone ws
        ⊎ ((pre post : List (Worker In Out)) × (w : Worker In Out) × (ws ≡ pre ++ w ∷ post)
            × ¬ (w ≡ gone))
  busy_or_gone [] = inl tt
  busy_or_gone (gone ∷ ws) = elim (busy_or_gone ws) [
    | inl h ↦ inl (refl, h)
    | inr (pre, post, w, e, busy) ↦ inr (gone ∷ pre, post, w, ap (λ l. gone ∷ l) e, busy)
  ]
  busy_or_gone (idle ∷ ws) = inr ([], ws, idle, refl, (λ q. cc))
  busy_or_gone (running x ∷ ws) = inr ([], ws, running x, refl, (λ q. cc))
  busy_or_gone (offering x r ∷ ws) = inr ([], ws, offering x r, refl, (λ q. cc))

  worker_step :
      ((x : In) → (r : Result Out) × Runs x r)
      → (s : Pool In Out) (items : List In) (pre post : List (Worker In Out)) (w : Worker In Out)
      → s.input ≡ items
      → s.workers ≡ pre ++ w ∷ post
      → ¬ (w ≡ gone)
      → (t : Pool In Out) × Step Runs s t
  worker_step total s [] pre post idle i e busy = (_, drained pre post e i refl)
  worker_step total s (x ∷ rest) pre post idle i e busy = (_, take pre post x rest e i refl)
  worker_step total s items pre post (running x) i e busy =
      let (r, h) = total x in (_, finish pre post x r e h refl)
  worker_step total s items pre post (offering x r) i e busy = (_, deliver pre post x r e refl)
  worker_step total s items pre post gone i e busy = absurd (busy refl)

  -- Where fn always returns, a pool whose output is still open can make a step: nothing but the
  -- closed output stops it.
  pub open_steps :
      ((x : In) → (r : Result Out) × Runs x r)
      → (s : Pool In Out) → s.out_closed ≡ false
      → (t : Pool In Out) × Step Runs s t
  open_steps total s h = elim (busy_or_gone s.workers) [
    | inl all_gone ↦ (_, close all_gone h refl)
    | inr (pre, post, w, e, busy) ↦ worker_step total s s.input pre post w refl e busy
  ]
