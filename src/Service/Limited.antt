-- ===== src/Service/Limited.antt =====
-- The queue behind Consume is used as Memq.Limit has it (queue/consume.go, queue/memq/memq.go).
use gojob.Prelude.{ℕ, ◌<◌, ◌≡◌, refl, sym, ap, ◌∙◌, All, pos}
use gojob.Memq.Handles.{handled_by}
use gojob.Memq.Limit
use gojob.Memq.Limit.{ByConsume, ConsumedReach, pending_below}
use gojob.Memq.System as Backend
use gojob.Memq.System.{
  System, Handle, get_handle, finalize_handle, published, sealed, closed, signalled, took, ended,
  parked, woken, delivered, wait_cancelled, send_cancelled, finalized, wrap,
}
use gojob.Queue.Consume.{Config, action}
use gojob.Service.{
  Service, start, IsOwn, Step, queue_step, handed, worked, passed, dropped, stopped, drained,
  cancel, process_closed, handled, crash, sent, send_stopped, finished, Reach, here, next,
}
use gojob.Service.Carried.{Carries, IsCarried, Reach-IsCarried}
use gojob.Service.Held.{handling-open}
use gojob.Service.Kept.{Reach-IsOwned}
use gojob.Service.Owned.{IsOwned}
use gojob.Service.Projected.{handled-finalize}

module _ {ℓ μ} {T : Type ℓ} {Out : Type μ} where
  own-ByConsume :
      (cfg : Config) (s : Service T Out) {q : System T} (st : Backend.Step s.memq q)
      → IsOwn s st
      → ByConsume Out cfg st
  unfolding ByConsume
  own-ByConsume cfg s (published x q ok e) own = tt
  own-ByConsume cfg s (sealed e) own = tt
  own-ByConsume cfg s (closed e) own = tt
  own-ByConsume cfg s (signalled m z e) own = tt
  own-ByConsume cfg s (took pre post it q w g e) own = tt
  own-ByConsume cfg s (ended pre post w g e) own = tt
  own-ByConsume cfg s (parked pre post w g e) own = tt
  own-ByConsume cfg s (woken pre post w k e) own = tt
  own-ByConsume cfg s (delivered pre post it w e) own = tt
  own-ByConsume cfg s (wait_cancelled pre post w e) own = tt
  own-ByConsume cfg s (send_cancelled pre post it w e) own = tt
  own-ByConsume cfg s (finalized a i e) own = cc

  module _ (cfg : Config) where
    Step-consumed :
        {s t : Service T Out}
        → Step cfg s t
        → IsCarried cfg s
        → IsOwned s
        → ConsumedReach Out cfg (Backend.start 1) s.memq
        → ConsumedReach Out cfg (Backend.start 1) t.memq
    unfolding ByConsume
    Step-consumed {s} (queue_step q st own e) c o p =
        rw e (Limit.next p st (own-ByConsume cfg s st own))
    Step-consumed (handed pre post before behind it w i e) c o p =
        rw e (Limit.next p (delivered pre post it w refl) tt)
    Step-consumed (worked before behind x z calls races env w each e) c o p = rw e p
    Step-consumed (passed before behind x r w l e) c o p = rw e p
    Step-consumed (dropped before behind x r w k e) c o p = rw e p
    Step-consumed (stopped before behind w k e) c o p = rw e p
    Step-consumed (drained before behind w k e) c o p = rw e p
    Step-consumed (cancel k e) c o p = rw e p
    Step-consumed (process_closed all open_still e) c o p = rw e p
    Step-consumed {s} (handled x r m l has e) c o p =
        let (h, g, same, _, _) = handling-open s x r l o in
        let carries : Carries cfg x r = rw l at c.loop in
        let message : m ≡ wrap x.index x.item = cc in
        rw e (
          Limit.next p
            (finalized (handled_by (action cfg r m)) x.index (handled-finalize cfg s x r m l has c))
            (λ k f.
              let found : k ≡ h = cc in
              (
                r,
                ap (λ y. handled_by (action cfg r y))
                    (message ∙ ap (wrap x.index) (sym (ap (λ y. y.item) found ∙ same))),
              )))
    Step-consumed (crash x r l n e) c o p = rw e p
    Step-consumed (sent x r l e) c o p = rw e p
    Step-consumed (send_stopped x r l k e) c o p = rw e p
    Step-consumed (finished l k e) c o p = rw e p

    -- The finalizations of the queue are those that Consume picks.
    pub Reach-consumed :
        {s : Service T Out}
        → Reach cfg (start cfg) s
        → ConsumedReach Out cfg (Backend.start 1) s.memq
    unfolding start
    Reach-consumed here = Limit.here
    Reach-consumed (next p st) =
        Step-consumed st (Reach-IsCarried cfg p) (Reach-IsOwned cfg p) (Reach-consumed p)

    -- A pending message may be delivered once more.
    pub Reach-pending :
        {s : Service T Out} (n : ℕ)
        → Reach cfg (start cfg) s
        → cfg.max_deliveries ≡ pos n
        → 0 < n
        → All (λ it. it.deliveries < n) s.memq.queue.pending
    Reach-pending n p limit some_limit =
        pending_below Out cfg n limit some_limit 1 (Reach-consumed p)
