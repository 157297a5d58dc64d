-- ===== src/Service/Exact.antt =====
-- While ctx is alive every delivered message that is not finalized is held, and none is dropped
-- (queue/consume.go, process.go, queue/memq/memq.go).
use gojob.Prelude.{
  ℕ, ◌≡◌, refl, ap, ◌∙◌, false, List, [], ◌∷◌, ◌++◌, All, All-swap, All-map_to, length, arith,
}
use gojob.Memq.{Item, Final}
use gojob.Memq.Handles.{finalize_fresh, first_call}
use gojob.Memq.Open.{open_at, open_at-append, open_at-fire}
use gojob.Memq.System as Backend
use gojob.Memq.System.{
  System, Handle, Receiver, checking, waiting, holding, returned, finalize_handle, published,
  sealed, closed, signalled, took, ended, parked, woken, delivered, wait_cancelled, send_cancelled,
  finalized,
}
use gojob.Process.Pool.{Worker, idle, running, offering, gone}
use gojob.Queue.Consume.{Outcome}
use gojob.Service.{Ticket, Loop, ready, handling, Service, IsOwn}
use gojob.Service.Held.{handling-open}
use gojob.Service.Owned.{
  worker_ticket, tickets, loop_ticket, held, ticket_count, ticket_count-append, IsOwned,
  middle_count,
}
use gojob.Task.{Result}

-- A list of one element, split around an element.
no_split {ℓ} :
    {A : Type ℓ} (pre post : List A) (a b : A) (xs : List A)
    → xs ≡ b ∷ []
    → xs ≡ pre ++ a ∷ post
    → a ≡ b
no_split [] post a b xs e f = cc
no_split (x ∷ []) post a b xs e f = cc
no_split (x ∷ y ∷ pre) post a b xs e f = cc

module _ {ℓ μ} {T : Type ℓ} {Out : Type μ} where
  -- The goroutine of Receive that has returned stays so, and nothing is dropped.
  pub own-returned :
      (s : Service T Out) {q : System T} (st : Backend.Step s.memq q)
      → s.cancelled ≡ false
      → IsOwn s st
      → (q.lost ≡ s.memq.lost) × (s.memq.receivers ≡ returned ∷ [] → q.receivers ≡ returned ∷ [])
  own-returned s (published x q ok e) alive own = rw e (refl, λ r. r)
  own-returned s (sealed e) alive own = rw e (refl, λ r. r)
  own-returned s (closed e) alive own = rw e (refl, λ r. r)
  own-returned s (signalled m z e) alive own = rw e (refl, λ r. r)
  own-returned s (took pre post it q w g e) alive own =
      rw e (refl, λ r. let same = no_split pre post checking returned _ r w in cc)
  own-returned s (ended pre post w g e) alive own =
      rw e (refl, λ r. let same = no_split pre post checking returned _ r w in cc)
  own-returned s (parked pre post w g e) alive own =
      rw e (refl, λ r. let same = no_split pre post checking returned _ r w in cc)
  own-returned s (woken pre post w k e) alive own =
      rw e (refl, λ r. let same = no_split pre post waiting returned _ r w in cc)
  own-returned s (delivered pre post it w e) alive own = cc
  own-returned s (wait_cancelled pre post w e) alive own = cc
  own-returned s (send_cancelled pre post it w e) alive own = cc
  own-returned s (finalized a i e) alive own = cc

  abbrev pub GoneBack :
      List (Receiver T) → Worker (Ticket T) (Outcome (System T) T Out) → Type (ℓ ⊔ μ)
  GoneBack rs w = w ≡ gone → rs ≡ returned ∷ []

  -- Each delivery that is not finalized is held, none is dropped, and a worker is gone only where
  -- Receive has returned.
  pub record IsExact (s : Service T Out) : Type (ℓ ⊔ μ) where
    pub all_held : (i : ℕ) → open_at s.memq.handles i ≡ ticket_count i (held s)
    pub none_lost : s.memq.lost ≡ []
    pub gone_back : All (GoneBack s.memq.receivers) s.workers

  pub worker-IsExact :
      (s : Service T Out) (before behind : List (Worker (Ticket T) (Outcome (System T) T Out)))
      (w w' : Worker (Ticket T) (Outcome (System T) T Out))
      → s.workers ≡ before ++ w ∷ behind
      → ((i : ℕ) → ticket_count i (worker_ticket w') ≡ ticket_count i (worker_ticket w))
      → GoneBack s.memq.receivers w'
      → IsExact s
      → IsExact (record s { workers = before ++ w' ∷ behind })
  worker-IsExact s before behind w w' e same g v = record {
    all_held = λ i.
        let own : ticket_count i (tickets s.workers)
            ≡ ticket_count i (tickets (before ++ w ∷ behind)) =
          ap (λ l. ticket_count i (tickets l)) e in
        omega (
          arith,
          v.all_held i,
          same i,
          own,
          middle_count before behind w i,
          middle_count before behind w' i,
          ticket_count-append i (loop_ticket s.loop) (tickets s.workers),
          ticket_count-append i (loop_ticket s.loop) (tickets (before ++ w' ∷ behind)),
        );
    none_lost = v.none_lost;
    gone_back = All-swap (GoneBack s.memq.receivers) before behind w w' (rw e at v.gone_back) g;
  }

  -- The loop, without a ticket before and after.
  pub loop-IsExact :
      (s : Service T Out) (l : Loop T Out)
      → loop_ticket s.loop ≡ []
      → loop_ticket l ≡ []
      → IsExact s
      → IsExact (record s { loop = l })
  loop-IsExact s l e f v = record {
    all_held = λ i. rw f (rw e at (v.all_held i));
    none_lost = v.none_lost;
    gone_back = v.gone_back;
  }

  pub handed-IsExact :
      (s : Service T Out) (pre post : List (Receiver T))
      (before behind : List (Worker (Ticket T) (Outcome (System T) T Out))) (it : Item T)
      (q : System T)
      → s.memq.receivers ≡ pre ++ holding it ∷ post
      → s.workers ≡ before ++ idle ∷ behind
      → q.handles ≡ s.memq.handles ++ record { item = it; fired = false } ∷ []
      → q.lost ≡ s.memq.lost
      → IsExact s
      → IsExact (record s {
        memq = q;
        workers = before ++ running (record { index = length s.memq.handles; item = it }) ∷ behind;
      })
  handed-IsExact s pre post before behind it q w e f l v =
      let hs = s.memq.handles in
      let fresh : Handle T = record { item = it; fired = false } in
      let x : Ticket T = record { index = length hs; item = it } in
      let kept : All (GoneBack q.receivers) s.workers =
        All-map_to (GoneBack s.memq.receivers) (GoneBack q.receivers) s.workers
          (λ y g h. let same = no_split pre post (holding it) returned _ (g h) w in cc)
          v.gone_back in
      record {
        all_held = λ i.
            let own : ticket_count i (tickets s.workers)
                ≡ ticket_count i (tickets (before ++ idle ∷ behind)) =
              ap (λ l. ticket_count i (tickets l)) e in
            rw f (
              omega (
                arith,
                v.all_held i,
                own,
                open_at-append hs fresh i refl,
                middle_count before behind idle i,
                middle_count before behind (running x) i,
                ticket_count-append i (loop_ticket s.loop) (tickets s.workers),
                ticket_count-append i (loop_ticket s.loop) (tickets (before ++ running x ∷ behind)),
              ));
        none_lost = l ∙ v.none_lost;
        gone_back =
            All-swap (GoneBack q.receivers) before behind idle (running x) (rw e at kept) (λ h. cc);
      }

  pub passed-IsExact :
      (s : Service T Out) (before behind : List (Worker (Ticket T) (Outcome (System T) T Out)))
      (x : Ticket T) (r : Result (Outcome (System T) T Out))
      → s.workers ≡ before ++ offering x r ∷ behind
      → s.loop ≡ ready
      → IsExact s
      → IsExact (record s { workers = before ++ idle ∷ behind; loop = handling x r })
  passed-IsExact s before behind x r e l v = record {
    all_held = λ i.
        let same : open_at s.memq.handles i
            ≡ ticket_count i (tickets (before ++ offering x r ∷ behind)) =
          rw (l, e) at (v.all_held i) in
        omega (
          arith,
          same,
          middle_count before behind idle i,
          middle_count before behind (offering x r) i,
        );
    none_lost = v.none_lost;
    gone_back =
        All-swap (GoneBack s.memq.receivers) before behind (offering x r) idle (rw e at v.gone_back)
          (λ h. cc);
  }

  pub handled-IsExact :
      (s : Service T Out) (x : Ticket T) (r : Result (Outcome (System T) T Out)) (a : Final)
      (l : Loop T Out)
      → s.loop ≡ handling x r
      → loop_ticket l ≡ []
      → IsOwned s
      → IsExact s
      → IsExact (record s { memq = finalize_handle a x.index s.memq; loop = l })
  unfolding first_call
  handled-IsExact s x r a l e nothing o v =
      let (h, g, same, fresh, there) = handling-open s x r e o in
      rw (finalize_fresh a x.index s.memq g fresh) (record {
        all_held = λ i.
            let all : open_at s.memq.handles i ≡ ticket_count i (x ∷ tickets s.workers) =
              rw e at (v.all_held i) in
            rw nothing (omega (arith, all, open_at-fire s.memq.handles x.index i there));
        none_lost = v.none_lost;
        gone_back = v.gone_back;
      })
