-- ===== src/Service/Held.antt =====
-- Who holds what, through what each step does to it (queue/consume.go, process.go, queue/memq/memq.go).
use gojob.Prelude.{
  ℕ, ◌≤◌, ◌≡◌, refl, ap, false, some, List, [], ◌∷◌, ◌++◌, All, All-map_to, length, All-middle,
  All-swap, arith,
}
use gojob.Memq.{Item, Final, seal, close, signal}
use gojob.Memq.Places.{receive-got, publish-ok}
use gojob.Memq.Handles.{finalize_fresh, first_call}
use gojob.Memq.Open.{
  open_at, open_at-append, open_at-fire, Names, Names-append, Names-last, Names-fire, open_at-some,
}
use gojob.Memq.System as Backend
use gojob.Memq.System.{
  System, Handle, get_handle, fire, Receiver, checking, waiting, holding, returned, finalize_handle,
  published, sealed, closed, signalled, took, ended, parked, woken, delivered, wait_cancelled,
  send_cancelled, finalized, wrap,
}
use gojob.Process.Pool.{Worker, idle, running, offering}
use gojob.Queue.Consume.{Outcome, Action, acked, nacked, dead_lettered, is_final}
use gojob.Service.{Ticket, Loop, ready, handling, Service, after, IsOwn}
use gojob.Service.Owned.{
  worker_ticket, tickets, loop_ticket, ticket_count, ticket_count-append, WorkerNamed, IsOwned,
  middle_count,
}
use gojob.Task.{Result}

module _ {ℓ μ} {T : Type ℓ} {Out : Type μ} where
  pub own-handles :
      (s : Service T Out) {q : System T} (st : Backend.Step s.memq q)
      → IsOwn s st
      → (q.handles ≡ s.memq.handles) × (q.acked ≡ s.memq.acked) × (q.queue.dead ≡ s.memq.queue.dead)
  unfolding seal close signal
  own-handles s (published x q ok e) own = rw (e, publish-ok x s.memq.queue ok) (refl, refl, refl)
  own-handles s (sealed e) own = rw e (refl, refl, refl)
  own-handles s (closed e) own = rw e (refl, refl, refl)
  own-handles s (signalled m z e) own = rw e (refl, refl, refl)
  own-handles s (took pre post it q w g e) own =
      let (first, rest, p, bumped, left_over) = receive-got s.memq.queue g in
      rw (e, left_over) (refl, refl, refl)
  own-handles s (ended pre post w g e) own = rw e (refl, refl, refl)
  own-handles s (parked pre post w g e) own = rw e (refl, refl, refl)
  own-handles s (woken pre post w k e) own = rw e (refl, refl, refl)
  own-handles s (delivered pre post it w e) own = cc
  own-handles s (wait_cancelled pre post w e) own = rw e (refl, refl, refl)
  own-handles s (send_cancelled pre post it w e) own = rw e (refl, refl, refl)
  own-handles s (finalized a i e) own = cc

  -- A worker goes on with the same ticket, or without one.
  pub worker-IsOwned :
      (s : Service T Out) (before behind : List (Worker (Ticket T) (Outcome (System T) T Out)))
      (w w' : Worker (Ticket T) (Outcome (System T) T Out))
      → s.workers ≡ before ++ w ∷ behind
      → ((i : ℕ) → ticket_count i (worker_ticket w') ≤ ticket_count i (worker_ticket w))
      → (WorkerNamed s.memq.handles w → WorkerNamed s.memq.handles w')
      → IsOwned s
      → IsOwned (record s { workers = before ++ w' ∷ behind })
  worker-IsOwned s before behind w w' e fewer n v =
      let here_named = rw e at v.named in
      record {
        at_most = λ i.
            let own : ticket_count i (tickets s.workers)
                ≡ ticket_count i (tickets (before ++ w ∷ behind)) =
              ap (λ l. ticket_count i (tickets l)) e in
            omega (
              arith,
              v.at_most i,
              fewer i,
              own,
              middle_count before behind w i,
              middle_count before behind w' i,
              ticket_count-append i (loop_ticket s.loop) (tickets s.workers),
              ticket_count-append i (loop_ticket s.loop) (tickets (before ++ w' ∷ behind)),
            );
        named =
            All-swap (WorkerNamed s.memq.handles) before behind w w' here_named
              (n (All-middle (WorkerNamed s.memq.handles) before behind here_named));
        in_loop = v.in_loop;
      }

  -- The loop goes on without a ticket.
  pub loop-IsOwned :
      (s : Service T Out) (l : Loop T Out)
      → loop_ticket l ≡ []
      → IsOwned s
      → IsOwned (record s { loop = l })
  loop-IsOwned s l e v = record {
    at_most = λ i. rw e (
        omega (arith, v.at_most i, ticket_count-append i (loop_ticket s.loop) (tickets s.workers)));
    named = v.named;
    in_loop = rw e tt;
  }

  pub after-no_ticket :
      (x : Ticket T) (a : Action) (r : Result Out) → loop_ticket (after x a r) ≡ []
  unfolding after is_final
  after-no_ticket x acked r = refl
  after-no_ticket x nacked r = refl
  after-no_ticket x dead_lettered r = refl

  -- What the loop holds is an open delivery of its item.
  pub handling-open :
      (s : Service T Out) (x : Ticket T) (r : Result (Outcome (System T) T Out))
      → s.loop ≡ handling x r
      → IsOwned s
      → (h : Handle T) × (get_handle s.memq.handles x.index ≡ some h)
        × (h.item ≡ x.item)
        × (h.fired ≡ false)
        × (1 ≤ open_at s.memq.handles x.index)
  handling-open s x r l v =
      let ((h, e, same), _) : All (λ y. Names s.memq.handles y.index y.item) (x ∷ []) =
        rw l at v.in_loop in
      let most : ticket_count x.index (x ∷ tickets s.workers) ≤ open_at s.memq.handles x.index =
        rw l at (v.at_most x.index) in
      let there : 1 ≤ open_at s.memq.handles x.index = ground (arith, most) in
      (h, e, same, open_at-some s.memq.handles x.index e there, there)

  pub handled-IsOwned :
      (s : Service T Out) (x : Ticket T) (r : Result (Outcome (System T) T Out)) (a : Final)
      (l : Loop T Out)
      → s.loop ≡ handling x r
      → loop_ticket l ≡ []
      → IsOwned s
      → IsOwned (record s { memq = finalize_handle a x.index s.memq; loop = l })
  unfolding first_call
  handled-IsOwned s x r a l e nothing v =
      let (h, g, same, fresh, there) = handling-open s x r e v in
      let hs = s.memq.handles in
      rw (finalize_fresh a x.index s.memq g fresh) (record {
        at_most = λ i.
            let most : ticket_count i (x ∷ tickets s.workers) ≤ open_at hs i =
              rw e at (v.at_most i) in
            rw nothing (omega (arith, most, open_at-fire hs x.index i there));
        named =
            All-map_to (WorkerNamed hs) (WorkerNamed (fire hs x.index)) s.workers
              (λ w n.
                All-map_to (λ y. Names hs y.index y.item) _ (worker_ticket w)
                  (λ y m. Names-fire hs x.index y.index y.item m) n)
              v.named;
        in_loop = rw nothing tt;
      })

  pub handed-IsOwned :
      (s : Service T Out) (before behind : List (Worker (Ticket T) (Outcome (System T) T Out)))
      (it : Item T) (q : System T)
      → s.workers ≡ before ++ idle ∷ behind
      → q.handles ≡ s.memq.handles ++ record { item = it; fired = false } ∷ []
      → IsOwned s
      → IsOwned (record s {
        memq = q;
        workers = before ++ running (record { index = length s.memq.handles; item = it }) ∷ behind;
      })
  handed-IsOwned s before behind it q e f v =
      let hs = s.memq.handles in
      let fresh : Handle T = record { item = it; fired = false } in
      let x : Ticket T = record { index = length hs; item = it } in
      let older : All (WorkerNamed (hs ++ fresh ∷ [])) s.workers =
        All-map_to (WorkerNamed hs) (WorkerNamed (hs ++ fresh ∷ [])) s.workers
          (λ w n.
            All-map_to (λ y. Names hs y.index y.item) _ (worker_ticket w)
              (λ y m. Names-append hs (fresh ∷ []) y.index y.item m) n)
          v.named in
      record {
        at_most = λ i.
            let own : ticket_count i (tickets s.workers)
                ≡ ticket_count i (tickets (before ++ idle ∷ behind)) =
              ap (λ l. ticket_count i (tickets l)) e in
            rw f (
              omega (
                arith,
                v.at_most i,
                own,
                open_at-append hs fresh i refl,
                middle_count before behind idle i,
                middle_count before behind (running x) i,
                ticket_count-append i (loop_ticket s.loop) (tickets s.workers),
                ticket_count-append i (loop_ticket s.loop) (tickets (before ++ running x ∷ behind)),
              ));
        named = rw f (
            All-swap (WorkerNamed (hs ++ fresh ∷ [])) before behind idle (running x) (rw e at older)
              (Names-last hs fresh, tt));
        in_loop = rw f (
            All-map_to (λ y. Names hs y.index y.item) _ (loop_ticket s.loop)
              (λ y m. Names-append hs (fresh ∷ []) y.index y.item m) v.in_loop);
      }

  pub passed-IsOwned :
      (s : Service T Out) (before behind : List (Worker (Ticket T) (Outcome (System T) T Out)))
      (x : Ticket T) (r : Result (Outcome (System T) T Out))
      → s.workers ≡ before ++ offering x r ∷ behind
      → s.loop ≡ ready
      → IsOwned s
      → IsOwned (record s { workers = before ++ idle ∷ behind; loop = handling x r })
  passed-IsOwned s before behind x r e l v =
      let here_named = rw e at v.named in
      let hs = s.memq.handles in
      record {
        at_most = λ i.
            let most : ticket_count i (tickets (before ++ offering x r ∷ behind)) ≤ open_at hs i =
              rw (l, e) at (v.at_most i) in
            omega (
              arith,
              most,
              middle_count before behind idle i,
              middle_count before behind (offering x r) i,
            );
        named = All-swap (WorkerNamed hs) before behind (offering x r) idle here_named tt;
        in_loop = All-middle (WorkerNamed hs) before behind {x = offering x r} here_named;
      }
