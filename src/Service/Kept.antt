-- ===== src/Service/Kept.antt =====
-- That each delivered message stays in the hands of one, in every step (queue/consume.go,
-- process.go, queue/memq/memq.go).
use gojob.Prelude.{ℕ, zero, suc, ◌≡◌, refl, [], All-replicate, arith, replicate}
use gojob.Memq.System as Backend
use gojob.Memq.System.{
  System, Handle, get_handle, fire, Receiver, checking, waiting, holding, returned, finalize_handle,
  published, sealed, closed, signalled, took, ended, parked, woken, delivered, wait_cancelled,
  send_cancelled, finalized, wrap,
}
use gojob.Process.Pool.{idle, running, offering, gone}
use gojob.Queue.Consume.{Config, action}
use gojob.Service.{
  ready, left, crashed, Service, start, Step, queue_step, handed, worked, passed, dropped, stopped,
  drained, cancel, process_closed, handled, crash, sent, send_stopped, finished, Reach, here, next,
}
use gojob.Service.Carried.{IsCarried, Reach-IsCarried}
use gojob.Service.Projected.{handled-finalize}
use gojob.Service.Owned.{tickets, ticket_count, WorkerNamed, IsOwned}
use gojob.Service.Held.{
  own-handles, worker-IsOwned, loop-IsOwned, after-no_ticket, handled-IsOwned, handed-IsOwned,
  passed-IsOwned,
}

pub no_tickets {ℓ μ} :
    (T : Type ℓ) (Out : Type μ) (n i : ℕ)
    → ticket_count i (tickets {T = T} {Out = Out} (replicate n idle)) ≡ 0
no_tickets T Out zero i = refl
no_tickets T Out (suc n) i = no_tickets T Out n i

module _ {ℓ μ} {T : Type ℓ} {Out : Type μ} where
  module _ (cfg : Config) where
    Step-IsOwned : {s t : Service T Out} → Step cfg s t → IsCarried cfg s → IsOwned s → IsOwned t
    Step-IsOwned {s} (queue_step q st own e) m v =
        let (same, _, _) = own-handles s st own in
        rw e (record {
          at_most = λ i. rw same (v.at_most i);
          named = rw same v.named;
          in_loop = rw same v.in_loop;
        })
    Step-IsOwned {s} (handed pre post before behind it w i e) m v =
        rw e (handed-IsOwned s before behind it _ i refl v)
    Step-IsOwned {s} (worked before behind x z calls races env w each e) m v =
        rw e (worker-IsOwned s before behind (running x) _ w (λ i. omega arith) (λ n. n) v)
    Step-IsOwned {s} (passed before behind x r w l e) m v =
        rw e (passed-IsOwned s before behind x r w l v)
    Step-IsOwned {s} (dropped before behind x r w c e) m v =
        rw e (worker-IsOwned s before behind (offering x r) gone w (λ i. omega arith) (λ n. tt) v)
    Step-IsOwned {s} (stopped before behind w c e) m v =
        rw e (worker-IsOwned s before behind idle gone w (λ i. omega arith) (λ n. tt) v)
    Step-IsOwned {s} (drained before behind w c e) m v =
        rw e (worker-IsOwned s before behind idle gone w (λ i. omega arith) (λ n. tt) v)
    Step-IsOwned {s} (cancel c e) m v =
        rw e (record { at_most = v.at_most; named = v.named; in_loop = v.in_loop })
    Step-IsOwned {s} (process_closed all open_still e) m v =
        rw e (record { at_most = v.at_most; named = v.named; in_loop = v.in_loop })
    Step-IsOwned {s} (handled x r k l has e) m v =
        rw (e, handled-finalize cfg s x r k l has m)
          (handled-IsOwned s x r _ _ l (after-no_ticket x (action cfg r k) _) v)
    Step-IsOwned {s} (crash x r l n e) m v = rw e (loop-IsOwned s crashed refl v)
    Step-IsOwned {s} (sent x r l e) m v =
        let u = loop-IsOwned s ready refl v in
        rw e (record { at_most = u.at_most; named = u.named; in_loop = u.in_loop })
    Step-IsOwned {s} (send_stopped x r l c e) m v = rw e (loop-IsOwned s left refl v)
    Step-IsOwned {s} (finished l c e) m v = rw e (loop-IsOwned s left refl v)

    start-IsOwned : IsOwned {T = T} {Out = Out} (start cfg)
    unfolding start Backend.start
    start-IsOwned = record {
      at_most = λ i. omega (arith, no_tickets T Out _ i);
      named = All-replicate (WorkerNamed []) _ idle tt;
      in_loop = tt;
    }

    -- Whatever the goroutines do and whatever ctx does, a message that has been delivered is in the
    -- hands of at most one worker or of the loop, and of none once it is finalized; and what they hold
    -- is the item of that very delivery.
    pub Reach-IsOwned : {s : Service T Out} → Reach cfg (start cfg) s → IsOwned s
    Reach-IsOwned here = start-IsOwned
    Reach-IsOwned (next p st) = Step-IsOwned st (Reach-IsCarried cfg p) (Reach-IsOwned p)
