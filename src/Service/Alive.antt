-- ===== src/Service/Alive.antt =====
-- Consume on an in-memory queue never stands still before its time (queue/consume.go, process.go,
-- queue/memq/memq.go).
use gojob.Prelude.{◌≡◌, ◌⊎◌, inl, inr, refl, false, none, [], ◌∷◌, All, arith, pos, Bool-cases}
use gojob.Memq.{drained_locked, receive}
use gojob.Memq.Drained.{outstanding_counts}
use gojob.Memq.Ended.{Next-cases}
use gojob.Memq.Open.{open_items-none}
use gojob.Memq.Places.{carried}
use gojob.Memq.System.{System, checking, waiting, signalled, took, ended, parked, woken, wrap}
use gojob.Memq.Wakeup.{no_lost_wakeup, receiver_cases}
use gojob.Process.{Env}
use gojob.Process.Pool.{IsGone}
use gojob.Queue.Consume.{Config, Outcome, work}
use gojob.Service.{
  Ticket, ready, left, Service, start, Step, queue_step, handed, worked, passed, drained,
  process_closed, handled, sent, finished, Reach,
}
use gojob.Service.Carried.{Carries, Reach-IsCarried, Reach-not_crashed}
use gojob.Service.Ended.{has_worker}
use gojob.Service.Inflight.{Reach-IsExact}
use gojob.Service.Projected.{Reach-memq}
use gojob.Service.Progress.{
  zero_cases, IsInternal, IsWaiting, IsResting, busy_cases, resting_cases, resting-tickets,
  all_back, Loop-cases,
}

module _ {ℓ μ} {T : Type ℓ} {Out : Type μ} where
  module _ (cfg : Config) where
    -- A step of the program is possible.
    abbrev pub Moves : Service T Out → Type (ℓ ⊔ μ)
    Moves s = (t : Service T Out) × (st : Step cfg s t) × IsInternal st

    abbrev env_of : Out → Ticket T → Env (Outcome (System T) T Out)
    env_of zero_value x = record {
      call = λ n. work cfg zero_value (wrap x.index x.item) (zero_value, none) none;
      wait = λ n. none;
      race = λ n. none;
      zero_value = record { msg = none; out = zero_value };
      started = pos 0;
      ended = pos 0;
    }

    -- The goroutine of Receive, before the lock: it takes a message, returns, or waits.
    checking-Moves : (s : Service T Out) → s.memq.receivers ≡ checking ∷ [] → Moves s
    checking-Moves s w = elim (Next-cases (receive s.memq.queue)) [
      | inl (it, q, g) ↦ (_, queue_step _ (took [] [] it q w g refl) tt refl, tt)
      | inr (inl g) ↦ (_, queue_step _ (ended [] [] w g refl) tt refl, tt)
      | inr (inr g) ↦ (_, queue_step _ (parked [] [] w g refl) tt refl, tt)
    ]

    -- All workers are gone: Process closes its output, and the loop ends.
    gone-Moves : (s : Service T Out) → s.loop ≡ ready → All IsGone s.workers → Moves s
    gone-Moves s l all = elim (Bool-cases s.processed_closed) [
      | inl closed_now ↦ (_, finished l closed_now refl, tt)
      | inr open_still ↦ (_, process_closed all open_still refl, tt)
    ]

    -- Nothing is delivered and not finalized where the workers rest and the loop is ready.
    resting-counts :
        {s : Service T Out}
        → Reach cfg (start cfg) s
        → s.cancelled ≡ false
        → s.loop ≡ ready
        → All IsResting s.workers
        → s.memq.receivers ≡ waiting ∷ []
        → s.memq.queue.pending ≡ []
        → s.memq.queue.outstanding ≡ 0
    unfolding carried
    resting-counts {s} p alive l rest w empty =
        let v = Reach-IsExact cfg p alive in
        let none_open =
          open_items-none s.memq.handles
            (λ i. rw (l, resting-tickets s.workers rest) at (v.all_held i)) in
        rw (empty, w, none_open, v.none_lost) at (outstanding_counts 1 (Reach-memq cfg p))

    waiting_cases :
        {s : Service T Out}
        → Reach cfg (start cfg) s
        → s.cancelled ≡ false
        → s.loop ≡ ready
        → All IsResting s.workers
        → s.memq.receivers ≡ waiting ∷ []
        → Moves s ⊎ IsWaiting s
    unfolding drained_locked
    waiting_cases {s} p alive l rest w = elim (Bool-cases s.memq.queue.token) [
      | inl token ↦ inl (_, queue_step _ (woken [] [] w token refl) tt refl, tt)
      | inr none_sent ↦ elim (zero_cases s.memq.signals) [
        | inr (n, some_left) ↦ inl (_, queue_step _ (signalled n some_left refl) tt refl, tt)
        | inl z ↦
            let (empty, open_still, undrained) = no_lost_wakeup (Reach-memq cfg p) w z none_sent in
            let nothing = resting-counts p alive l rest w empty in
            inr (record {
              receiver = w;
              unsealed = ground arith;
              unclosed = open_still;
              empty = empty;
              none_outstanding = nothing;
            })
      ]
    ]

    -- All workers rest.
    resting-Moves :
        {s : Service T Out}
        → Reach cfg (start cfg) s
        → s.cancelled ≡ false
        → s.loop ≡ ready
        → All IsResting s.workers
        → Moves s ⊎ IsWaiting s
    resting-Moves {s} p alive l rest =
        let v = Reach-IsExact cfg p alive in
        let some_worker = has_worker cfg p alive in
        elim (receiver_cases (Reach-memq cfg p)) [
          | inl w ↦ inl (checking-Moves s w)
          | inr (inl w) ↦ waiting_cases p alive l rest w
          | inr (inr (inl (it, w))) ↦ elim (resting_cases s.workers rest) [
            | inl (before, behind, i) ↦ inl (_, handed [] [] before behind it w i refl, tt)
            | inr all ↦ let back = all_back s.workers some_worker all v.gone_back in cc
          ]
          | inr (inr (inr w)) ↦ elim (resting_cases s.workers rest) [
            | inl (before, behind, i) ↦ inl (_, drained before behind i w refl, tt)
            | inr all ↦ inl (gone-Moves s l all)
          ]
        ]

    -- While ctx is not done, and where the calls of fn return and the consumer receives, Consume on an
    -- in-memory queue stands still in two states only: it has closed its output, or the queue is
    -- empty, neither sealed nor closed, with no message outstanding, and Receive waits for the next
    -- call of Publish, Seal or Close. In every other state a step is possible that is none of these
    -- calls and not a cancellation.
    pub alive-Moves :
        {s : Service T Out}
        → (zero_value : Out) → Reach cfg (start cfg) s
        → s.cancelled ≡ false
        → Moves s ⊎ (s.loop ≡ left) ⊎ IsWaiting s
    alive-Moves {s} zero_value p alive = elim (Loop-cases s.loop) [
      | inl l ↦ elim (busy_cases s.workers) [
        | inl (x, (before, behind, w)) ↦
            inl (
              _,
              worked before behind x zero_value _ _ (env_of zero_value x) w (λ n. refl) refl,
              tt,
            )
        | inr (inl (x, r, (before, behind, w))) ↦ inl (_, passed before behind x r w l refl, tt)
        | inr (inr rest) ↦ elim (resting-Moves p alive l rest) [
          | inl move ↦ inl move
          | inr waits ↦ inr (inr waits)
        ]
      ]
      | inr (inl (x, r, l)) ↦
          let carried : Carries cfg x r = rw l at (Reach-IsCarried cfg p).loop in
          inl (_, handled x r (wrap x.index x.item) l carried refl, tt)
      | inr (inr (inl (x, r, l))) ↦ inl (_, sent x r l refl, tt)
      | inr (inr (inr (inl l))) ↦ inr (inl l)
      | inr (inr (inr (inr l))) ↦ absurd (Reach-not_crashed cfg p l)
    ]
