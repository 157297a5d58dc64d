-- ===== src/Service/Inflight.antt =====
-- That they stay so in every step while ctx is alive (queue/consume.go, process.go,
-- queue/memq/memq.go).
use gojob.Prelude.{◌≡◌, refl, ◌∙◌, true, false, [], ◌∷◌, All-map_to, All-replicate, arith}
use gojob.Memq.System as Backend
use gojob.Memq.System.{
  System, Handle, Receiver, checking, waiting, holding, returned, finalize_handle, published,
  sealed, closed, signalled, took, ended, parked, woken, delivered, wait_cancelled, send_cancelled,
  finalized,
}
use gojob.Process.Pool.{idle, running, gone}
use gojob.Queue.Consume.{Config, action}
use gojob.Service.{
  ready, left, Service, start, Step, queue_step, handed, worked, passed, dropped, stopped, drained,
  cancel, process_closed, handled, crash, sent, send_stopped, finished, Reach, here, next,
}
use gojob.Service.Carried.{IsCarried, Reach-IsCarried}
use gojob.Service.Ended.{Step-alive}
use gojob.Service.Held.{own-handles, after-no_ticket}
use gojob.Service.Kept.{no_tickets, Reach-IsOwned}
use gojob.Service.Owned.{IsOwned}
use gojob.Service.Projected.{handled-finalize}
use gojob.Service.Exact.{
  own-returned, GoneBack, IsExact, worker-IsExact, loop-IsExact, handed-IsExact, passed-IsExact,
  handled-IsExact,
}

module _ {ℓ μ} {T : Type ℓ} {Out : Type μ} where
  module _ (cfg : Config) where
    Step-IsExact :
        {s t : Service T Out}
        → Step cfg s t
        → t.cancelled ≡ false
        → IsCarried cfg s
        → IsOwned s
        → IsExact s
        → IsExact t
    Step-IsExact {s} (queue_step q st own e) alive c o v =
        let alive' : s.cancelled ≡ false = Step-alive cfg (queue_step q st own e) alive in
        let (same, _, _) = own-handles s st own in
        let (lost, back) = own-returned s st alive' own in
        rw e (record {
          all_held = λ i. rw same (v.all_held i);
          none_lost = lost ∙ v.none_lost;
          gone_back =
              All-map_to (GoneBack s.memq.receivers) (GoneBack q.receivers) s.workers
                (λ w g h. back (g h)) v.gone_back;
        })
    Step-IsExact {s} (handed pre post before behind it w i e) alive c o v =
        rw e (handed-IsExact s pre post before behind it _ w i refl refl v)
    Step-IsExact {s} (worked before behind x z calls races env w each e) alive c o v =
        rw e (worker-IsExact s before behind (running x) _ w (λ i. refl) (λ h. cc) v)
    Step-IsExact {s} (passed before behind x r w l e) alive c o v =
        rw e (passed-IsExact s before behind x r w l v)
    Step-IsExact {s} (dropped before behind x r w k e) alive c o v =
        let alive' = Step-alive cfg (dropped before behind x r w k e) alive in cc
    Step-IsExact {s} (stopped before behind w k e) alive c o v =
        let alive' = Step-alive cfg (stopped before behind w k e) alive in cc
    Step-IsExact {s} (drained before behind w k e) alive c o v =
        rw e (worker-IsExact s before behind idle gone w (λ i. refl) (λ h. k) v)
    Step-IsExact {s} (cancel k e) alive c o v =
        let dead : true ≡ false = rw e at alive in absurd (cc dead)
    Step-IsExact {s} (process_closed all open_still e) alive c o v =
        rw e (record { all_held = v.all_held; none_lost = v.none_lost; gone_back = v.gone_back })
    Step-IsExact {s} (handled x r k l has e) alive c o v =
        rw (e, handled-finalize cfg s x r k l has c)
          (handled-IsExact s x r _ _ l (after-no_ticket x (action cfg r k) _) o v)
    Step-IsExact {s} (crash x r l n e) alive c o v = let carried = rw l at c.loop in cc
    Step-IsExact {s} (sent x r l e) alive c o v =
        let u = loop-IsExact s ready (rw l refl) refl v in
        rw e (record { all_held = u.all_held; none_lost = u.none_lost; gone_back = u.gone_back })
    Step-IsExact {s} (send_stopped x r l k e) alive c o v =
        rw e (loop-IsExact s left (rw l refl) refl v)
    Step-IsExact {s} (finished l k e) alive c o v = rw e (loop-IsExact s left (rw l refl) refl v)

    start-IsExact : IsExact {T = T} {Out = Out} (start cfg)
    unfolding start Backend.start
    start-IsExact = record {
      all_held = λ i. omega (arith, no_tickets T Out _ i);
      none_lost = refl;
      gone_back = All-replicate (GoneBack (checking ∷ [])) _ idle (λ h. cc);
    }

    pub Reach-IsExact :
        {s : Service T Out} → Reach cfg (start cfg) s → s.cancelled ≡ false → IsExact s
    Reach-IsExact here alive = start-IsExact
    Reach-IsExact (next p st) alive =
        Step-IsExact st alive (Reach-IsCarried cfg p) (Reach-IsOwned cfg p)
          (Reach-IsExact p (Step-alive cfg st alive))
