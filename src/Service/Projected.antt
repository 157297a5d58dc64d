-- ===== src/Service/Projected.antt =====
-- The queue behind Consume goes through runs of Memq.System (queue/consume.go, queue/memq/memq.go).
use gojob.Prelude.{◌≡◌, refl, ap, ◌∙◌, some}
use gojob.Memq.Handles.{handled_by, perform-wrap}
use gojob.Memq.System as Backend
use gojob.Memq.System.{
  System, Receiver, checking, waiting, holding, returned, finalize_handle, published, sealed,
  closed, signalled, took, ended, parked, woken, delivered, wait_cancelled, send_cancelled,
  finalized, wrap,
}
use gojob.Queue.Consume.{Config, Outcome, perform, action}
use gojob.Queue.{Message}
use gojob.Service.{
  Ticket, handling, Service, start, Step, queue_step, handed, worked, passed, dropped, stopped,
  drained, cancel, process_closed, handled, crash, sent, send_stopped, finished, Reach, here, next,
}
use gojob.Service.Carried.{Carries, IsCarried, Reach-IsCarried}
use gojob.Task.{Result}

module _ {ℓ μ} {T : Type ℓ} {Out : Type μ} (cfg : Config) where
  -- What the loop does to the queue is the callback of the ticket.
  pub handled-finalize :
      (s : Service T Out) (x : Ticket T) (r : Result (Outcome (System T) T Out))
      (m : Message (System T) T)
      → s.loop ≡ handling x r
      → r.value.msg ≡ some m
      → IsCarried cfg s
      → perform (action cfg r m) m s.memq
        ≡ finalize_handle (handled_by (action cfg r m)) x.index s.memq
  handled-finalize s x r m l has v =
      let carried : Carries cfg x r = rw l at v.loop in
      let same : m ≡ wrap x.index x.item = cc in
      ap (λ y. perform (action cfg r m) y s.memq) same
      ∙ perform-wrap (action cfg r m) x.index x.item s.memq

  Step-memq :
      {s t : Service T Out}
      → Step cfg s t
      → IsCarried cfg s
      → Backend.Reach (Backend.start 1) s.memq
      → Backend.Reach (Backend.start 1) t.memq
  Step-memq (queue_step q st own e) v p = rw e (Backend.next p st)
  Step-memq (handed pre post before behind it w i e) v p =
      rw e (Backend.next p (delivered pre post it w refl))
  Step-memq (worked before behind x zero_value calls races env w each e) v p = rw e p
  Step-memq (passed before behind x r w l e) v p = rw e p
  Step-memq (dropped before behind x r w c e) v p = rw e p
  Step-memq (stopped before behind w c e) v p = rw e p
  Step-memq (drained before behind w c e) v p = rw e p
  Step-memq (cancel c e) v p = rw e p
  Step-memq (process_closed all open_still e) v p = rw e p
  Step-memq {s} (handled x r m l has e) v p = rw e (
      Backend.next p
        (finalized (handled_by (action cfg r m)) x.index (handled-finalize s x r m l has v)))
  Step-memq (crash x r l none_left e) v p = rw e p
  Step-memq (sent x r l e) v p = rw e p
  Step-memq (send_stopped x r l c e) v p = rw e p
  Step-memq (finished l c e) v p = rw e p

  -- The queue behind Consume is a queue as in Memq.
  pub Reach-memq :
      {s : Service T Out} → Reach cfg (start cfg) s → Backend.Reach (Backend.start 1) s.memq
  unfolding start
  Reach-memq here = Backend.here
  Reach-memq (next p st) = Step-memq st (Reach-IsCarried cfg p) (Reach-memq p)
