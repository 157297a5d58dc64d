-- ===== src/Service/Untouched.antt =====
-- What the steps of Consume leave to its callers (queue/consume.go, process.go,
-- queue/memq/memq.go).
use gojob.Prelude.{◌≡◌, refl, ap, ◌∙◌}
use gojob.Memq.{Item, Queue, Final, final_ack, final_nack, final_dead, finalize, signal}
use gojob.Memq.Handles.{handled_by, finalize_fresh, first_call}
use gojob.Memq.Places.{receive-got}
use gojob.Memq.System as Backend
use gojob.Memq.System.{
  System, published, sealed, closed, signalled, took, ended, parked, woken, delivered,
  wait_cancelled, send_cancelled, finalized,
}
use gojob.Queue.Consume.{Config, action}
use gojob.Service.{
  Service, IsOwn, Step, queue_step, handed, worked, passed, dropped, stopped, drained, cancel,
  process_closed, handled, crash, sent, send_stopped, finished,
}
use gojob.Service.Carried.{IsCarried}
use gojob.Service.Held.{handling-open}
use gojob.Service.Owned.{IsOwned}
use gojob.Service.Progress.{IsInternal}
use gojob.Service.Projected.{handled-finalize}

finalize-flags {ℓ} :
    {T : Type ℓ} (a : Final) (q : Queue T) (it : Item T)
    → ((finalize a it q).is_sealed ≡ q.is_sealed) × ((finalize a it q).is_closed ≡ q.is_closed)
unfolding finalize
finalize-flags final_ack q it = (refl, refl)
finalize-flags final_nack q it = (refl, refl)
finalize-flags final_dead q it = (refl, refl)

module _ {ℓ μ} {T : Type ℓ} {Out : Type μ} where
  -- What only the callers change.
  pub record IsUntouched (s t : Service T Out) : Type ℓ where
    pub same_ctx : t.cancelled ≡ s.cancelled
    pub same_seal : t.memq.queue.is_sealed ≡ s.memq.queue.is_sealed
    pub same_close : t.memq.queue.is_closed ≡ s.memq.queue.is_closed
    pub same_published : t.memq.published ≡ s.memq.published

  pub IsUntouched-refl : (s : Service T Out) → IsUntouched s s
  IsUntouched-refl s = record {
    same_ctx = refl;
    same_seal = refl;
    same_close = refl;
    same_published = refl;
  }

  pub IsUntouched-trans :
      {s t u : Service T Out} → IsUntouched s t → IsUntouched t u → IsUntouched s u
  IsUntouched-trans v w = record {
    same_ctx = w.same_ctx ∙ v.same_ctx;
    same_seal = w.same_seal ∙ v.same_seal;
    same_close = w.same_close ∙ v.same_close;
    same_published = w.same_published ∙ v.same_published;
  }

  memq-IsUntouched :
      (s t : Service T Out) (q : System T)
      → t.cancelled ≡ s.cancelled
      → t.memq ≡ q
      → q.queue.is_sealed ≡ s.memq.queue.is_sealed
      → q.queue.is_closed ≡ s.memq.queue.is_closed
      → q.published ≡ s.memq.published
      → IsUntouched s t
  memq-IsUntouched s t q c e a b d = record {
    same_ctx = c;
    same_seal = ap (λ x. x.queue.is_sealed) e ∙ a;
    same_close = ap (λ x. x.queue.is_closed) e ∙ b;
    same_published = ap (λ x. x.published) e ∙ d;
  }

  module _ (cfg : Config) where
    own-IsUntouched :
        (s : Service T Out) {t : Service T Out} {q : System T} (st : Backend.Step s.memq q)
        (own : IsOwn s st) (e : t ≡ record s { memq = q })
        → IsInternal {cfg = cfg} (queue_step q st own e)
        → IsUntouched s (record s { memq = q })
    unfolding signal
    own-IsUntouched s (published x q ok f) own e inside = cc
    own-IsUntouched s (sealed f) own e inside = cc
    own-IsUntouched s (closed f) own e inside = cc
    own-IsUntouched s (signalled m z f) own e inside = memq-IsUntouched s _ _ refl f refl refl refl
    own-IsUntouched s (took pre post it q w g f) own e inside =
        let (first, rest, p, bumped, left_over) = receive-got s.memq.queue g in
        rw (f, left_over) (memq-IsUntouched s _ _ refl refl refl refl refl)
    own-IsUntouched s (ended pre post w g f) own e inside =
        memq-IsUntouched s _ _ refl f refl refl refl
    own-IsUntouched s (parked pre post w g f) own e inside =
        memq-IsUntouched s _ _ refl f refl refl refl
    own-IsUntouched s (woken pre post w k f) own e inside =
        memq-IsUntouched s _ _ refl f refl refl refl
    own-IsUntouched s (delivered pre post it w f) own e inside = cc
    own-IsUntouched s (wait_cancelled pre post w f) own e inside =
        memq-IsUntouched s _ _ refl f refl refl refl
    own-IsUntouched s (send_cancelled pre post it w f) own e inside =
        memq-IsUntouched s _ _ refl f refl refl refl
    own-IsUntouched s (finalized a i f) own e inside = cc

    pub Step-IsUntouched :
        {s t : Service T Out} (st : Step cfg s t)
        → IsInternal st
        → IsCarried cfg s
        → IsOwned s
        → IsUntouched s t
    unfolding first_call
    Step-IsUntouched {s} (queue_step q st own e) inside c o =
        rw e (own-IsUntouched s st own e inside)
    Step-IsUntouched {s} (handed pre post before behind it w i e) inside c o =
        rw e (memq-IsUntouched s _ _ refl refl refl refl refl)
    Step-IsUntouched {s} (worked before behind x z calls races env w each e) inside c o =
        rw e (memq-IsUntouched s _ _ refl refl refl refl refl)
    Step-IsUntouched {s} (passed before behind x r w l e) inside c o =
        rw e (memq-IsUntouched s _ _ refl refl refl refl refl)
    Step-IsUntouched {s} (dropped before behind x r w k e) inside c o =
        rw e (memq-IsUntouched s _ _ refl refl refl refl refl)
    Step-IsUntouched {s} (stopped before behind w k e) inside c o =
        rw e (memq-IsUntouched s _ _ refl refl refl refl refl)
    Step-IsUntouched {s} (drained before behind w k e) inside c o =
        rw e (memq-IsUntouched s _ _ refl refl refl refl refl)
    Step-IsUntouched {s} (cancel k e) inside c o = cc
    Step-IsUntouched {s} (process_closed all open_still e) inside c o =
        rw e (memq-IsUntouched s _ _ refl refl refl refl refl)
    Step-IsUntouched {s} (handled x r m l has e) inside c o =
        let (h, g, same, fresh, there) = handling-open s x r l o in
        let a = handled_by (action cfg r m) in
        let (seal_kept, close_kept) = finalize-flags a s.memq.queue h.item in
        rw e (
          memq-IsUntouched s _ (first_call a x.index h s.memq) refl
            (handled-finalize cfg s x r m l has c ∙ finalize_fresh a x.index s.memq g fresh)
            seal_kept close_kept refl)
    Step-IsUntouched {s} (crash x r l k e) inside c o =
        rw e (memq-IsUntouched s _ _ refl refl refl refl refl)
    Step-IsUntouched {s} (sent x r l e) inside c o =
        rw e (memq-IsUntouched s _ _ refl refl refl refl refl)
    Step-IsUntouched {s} (send_stopped x r l k e) inside c o =
        rw e (memq-IsUntouched s _ _ refl refl refl refl refl)
    Step-IsUntouched {s} (finished l k e) inside c o =
        rw e (memq-IsUntouched s _ _ refl refl refl refl refl)
