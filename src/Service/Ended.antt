-- ===== src/Service/Ended.antt =====
-- When the output of Consume closes, the queue has ended (queue/consume.go, queue/memq/memq.go).
use gojob.Prelude.{
  ℤ, pos, negsuc, ◌<ℤ◌, ◌≤◌, ◌≡◌, refl, sym, ap, ◌∙◌, true, false, All-replicate, length,
  length-replicate, pos_part, arith,
}
use gojob.Memq.Drained.{outstanding_counts}
use gojob.Memq.Ended.{IsEnded}
use gojob.Memq.Outstanding.{IsCounted}
use gojob.Memq.System as Backend
use gojob.Memq.System.{
  System, Receiver, checking, waiting, holding, returned, published, sealed, closed, signalled,
  took, ended, parked, woken, delivered, wait_cancelled, send_cancelled, finalized, wrap,
}
use gojob.Process.Pool.{idle, running, offering, gone}
use gojob.Queue.Consume.{Config, process_config, perform, action}
use gojob.Service.{
  ready, handling, left, crashed, Service, start, Step, queue_step, handed, worked, passed, dropped,
  stopped, drained, cancel, process_closed, handled, crash, sent, send_stopped, finished, Reach,
  here, next,
}
use gojob.Queue.Consume.Carried.{process_config-IsValid}
use gojob.Service.Carried.{IsCarried, Reach-IsCarried}
use gojob.Service.Projected.{handled-finalize, Reach-memq}
use gojob.Service.Wound.{
  GoneEnded, Ended, IsWound, worker-IsWound, queue-IsWound, loop-IsWound, all_gone, own-IsAlive,
  after-left,
}

above_zero : (n : ℤ) → pos 0 <ℤ n → 1 ≤ pos_part n
above_zero (pos n) h = omega arith
above_zero (negsuc n) h = omega arith

-- Consume gives Process one worker or more.
some_workers : (cfg : Config) → 1 ≤ pos_part (process_config cfg).workers
some_workers cfg = above_zero _ (process_config-IsValid cfg).some_worker

module _ {ℓ μ} {T : Type ℓ} {Out : Type μ} where
  module _ (cfg : Config) where
    -- With ctx alive behind the step, it was alive before.
    pub Step-alive :
        {s t : Service T Out} → Step cfg s t → t.cancelled ≡ false → s.cancelled ≡ false
    Step-alive (queue_step q st own e) alive = sym (ap (λ x. x.cancelled) e) ∙ alive
    Step-alive (handed pre post before behind it w i e) alive =
        sym (ap (λ x. x.cancelled) e) ∙ alive
    Step-alive (worked before behind x z cs rs env w each e) alive =
        sym (ap (λ x. x.cancelled) e) ∙ alive
    Step-alive (passed before behind x r w l e) alive = sym (ap (λ x. x.cancelled) e) ∙ alive
    Step-alive (dropped before behind x r w c e) alive = sym (ap (λ x. x.cancelled) e) ∙ alive
    Step-alive (stopped before behind w c e) alive = sym (ap (λ x. x.cancelled) e) ∙ alive
    Step-alive (drained before behind w c e) alive = sym (ap (λ x. x.cancelled) e) ∙ alive
    Step-alive (process_closed all open_still e) alive = sym (ap (λ x. x.cancelled) e) ∙ alive
    Step-alive (handled x r k l has e) alive = sym (ap (λ x. x.cancelled) e) ∙ alive
    Step-alive (crash x r l n e) alive = sym (ap (λ x. x.cancelled) e) ∙ alive
    Step-alive (sent x r l e) alive = sym (ap (λ x. x.cancelled) e) ∙ alive
    Step-alive (send_stopped x r l c e) alive = sym (ap (λ x. x.cancelled) e) ∙ alive
    Step-alive (finished l p e) alive = sym (ap (λ x. x.cancelled) e) ∙ alive
    Step-alive (cancel live e) alive = live

    Step-IsWound :
        {s t : Service T Out}
        → Step cfg s t
        → t.cancelled ≡ false
        → IsCarried cfg s
        → IsCounted s.memq
        → IsWound s
        → IsWound t
    Step-IsWound {s} (queue_step q st own e) alive m c v =
        let alive' : s.cancelled ≡ false = Step-alive (queue_step q st own e) alive in
        rw e (queue-IsWound s q st (own-IsAlive s st alive' own) c v)
    Step-IsWound {s} (handed pre post before behind it w i e) alive m c v =
        let v' = queue-IsWound s _ (delivered pre post it w refl) tt c v in
        rw e (worker-IsWound (record s { memq = _ }) before behind idle _ i (λ x. cc) v')
    Step-IsWound {s} (worked before behind x zero_value calls races env w each e) alive m c v =
        rw e (worker-IsWound s before behind (running x) _ w (λ g. cc) v)
    Step-IsWound {s} (passed before behind x r w l e) alive m c v =
        let v' = worker-IsWound s before behind (offering x r) idle w (λ g. cc) v in
        rw e (loop-IsWound _ (handling x r) (λ g. cc) v')
    Step-IsWound {s} (dropped before behind x r w dead e) alive m c v =
        let alive' : s.cancelled ≡ false = Step-alive (dropped before behind x r w dead e) alive in
        absurd (cc (alive', dead))
    Step-IsWound {s} (stopped before behind w dead e) alive m c v =
        let alive' : s.cancelled ≡ false = Step-alive (stopped before behind w dead e) alive in
        absurd (cc (alive', dead))
    Step-IsWound {s} (drained before behind w closed_now e) alive m c v =
        rw e (
          worker-IsWound s before behind idle gone w (λ g. (rw closed_now at v.receivers).0 refl) v)
    Step-IsWound {s} (cancel live e) alive m c v =
        let dead : true ≡ false = rw e at alive in absurd (cc dead)
    Step-IsWound {s} (process_closed all open_still e) alive m c v = rw e (record {
      receivers = v.receivers;
      workers = v.workers;
      some_worker = v.some_worker;
      processed = λ p. all_gone (Ended s) s.workers v.some_worker all v.workers;
      loop = v.loop;
    })
    Step-IsWound {s} (handled x r k l has e) alive m c v =
        let same = handled-finalize cfg s x r k l has m in
        let q = perform (action cfg r k) k s.memq in
        let v' = queue-IsWound s q (finalized _ x.index same) tt c v in
        rw e (loop-IsWound (record s { memq = q }) _ (after-left x (action cfg r k) _ _) v')
    Step-IsWound {s} (crash x r l none_left e) alive m c v =
        rw e (loop-IsWound s crashed (λ g. cc) v)
    Step-IsWound {s} (sent x r l e) alive m c v =
        let v' = loop-IsWound s ready (λ g. cc) v in
        rw e (record {
          receivers = v.receivers;
          workers = v.workers;
          some_worker = v.some_worker;
          processed = v.processed;
          loop = λ g. cc;
        })
    Step-IsWound {s} (send_stopped x r l dead e) alive m c v =
        let alive' : s.cancelled ≡ false = Step-alive (send_stopped x r l dead e) alive in
        absurd (cc (alive', dead))
    Step-IsWound {s} (finished l p e) alive m c v =
        rw e (loop-IsWound s left (λ g. v.processed p) v)

    start-IsWound :
        1 ≤ pos_part (process_config cfg).workers → IsWound {T = T} {Out = Out} (start cfg)
    unfolding start Backend.start
    start-IsWound some_worker = record {
      receivers = (λ x. cc, tt);
      workers = All-replicate (GoneEnded _) _ idle (λ x. cc);
      some_worker = rw length-replicate some_worker;
      processed = λ p. cc;
      loop = λ l. cc;
    }

    Reach-IsWound : {s : Service T Out} → Reach cfg (start cfg) s → s.cancelled ≡ false → IsWound s
    Reach-IsWound here alive = start-IsWound (some_workers cfg)
    Reach-IsWound (next p st) alive =
        Step-IsWound st alive (Reach-IsCarried cfg p) (outstanding_counts 1 (Reach-memq cfg p))
          (Reach-IsWound p (Step-alive st alive))

    -- Where the output of Consume is closed and ctx is not done, the queue is closed or has drained.
    pub left-IsEnded :
        {s : Service T Out}
        → Reach cfg (start cfg) s
        → s.cancelled ≡ false
        → s.loop ≡ left
        → IsEnded s.memq.queue
    left-IsEnded p alive l = (Reach-IsWound p alive).loop l

    -- Process has a worker.
    pub has_worker :
        {s : Service T Out} → Reach cfg (start cfg) s → s.cancelled ≡ false → 1 ≤ length s.workers
    has_worker p alive = (Reach-IsWound p alive).some_worker
