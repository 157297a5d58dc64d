-- ===== src/Service/Wound.antt =====
-- Why the parts of Consume have returned (queue/consume.go, queue/memq/memq.go).
use gojob.Prelude.{
  ◌≤◌, ◌≡◌, ap, true, false, List, [], ◌∷◌, ◌++◌, All, All-swap, All-map_to, length, length-swap,
  arith,
}
use gojob.Memq.Ended.{IsEnded, Step-IsEnded}
use gojob.Memq.Outstanding.{IsCounted}
use gojob.Memq.Returned.{IsAlive, ReturnedEnded, Step-returned}
use gojob.Memq.System as Backend
use gojob.Memq.System.{
  System, Receiver, checking, waiting, holding, returned, published, sealed, closed, signalled,
  took, ended, parked, woken, delivered, wait_cancelled, send_cancelled, finalized, wrap,
}
use gojob.Process.Pool.{Worker, gone, IsGone}
use gojob.Queue.Consume.{Outcome, Action, acked, nacked, dead_lettered, is_final}
use gojob.Service.{Ticket, Loop, left, Service, after, IsOwn}
use gojob.Task.{Result}

module _ {ℓ μ} {T : Type ℓ} {Out : Type μ} where
  abbrev pub GoneEnded : Type 0 → Worker (Ticket T) (Outcome (System T) T Out) → Type (ℓ ⊔ μ)
  GoneEnded E w = w ≡ gone → E

  abbrev pub Ended : Service T Out → Type 0
  Ended s = IsEnded s.memq.queue

  -- While ctx is alive, whatever has returned has done so because the queue has ended.
  pub record IsWound (s : Service T Out) : Type (ℓ ⊔ μ) where
    pub receivers : All (ReturnedEnded s.memq.queue) s.memq.receivers
    pub workers : All (GoneEnded (Ended s)) s.workers
    pub some_worker : 1 ≤ length s.workers
    pub processed : s.processed_closed ≡ true → Ended s
    pub loop : s.loop ≡ left → Ended s

  -- A worker goes on, with nothing else changed.
  pub worker-IsWound :
      (s : Service T Out) (before behind : List (Worker (Ticket T) (Outcome (System T) T Out)))
      (w w' : Worker (Ticket T) (Outcome (System T) T Out))
      → s.workers ≡ before ++ w ∷ behind
      → (w' ≡ gone → Ended s)
      → IsWound s
      → IsWound (record s { workers = before ++ w' ∷ behind })
  worker-IsWound s before behind w w' e f v = record {
    receivers = v.receivers;
    workers = All-swap (GoneEnded (Ended s)) before behind w w' (rw e at v.workers) f;
    some_worker = omega (arith, v.some_worker, length-swap before behind w w', ap length e);
    processed = v.processed;
    loop = v.loop;
  }

  -- The queue goes on, with nothing else changed.
  pub queue-IsWound :
      (s : Service T Out) (q : System T) (st : Backend.Step s.memq q)
      → IsAlive st
      → IsCounted s.memq
      → IsWound s
      → IsWound (record s { memq = q })
  queue-IsWound s q st a c v =
      let onward = Step-IsEnded st c in
      record {
        receivers = Step-returned st a c v.receivers;
        workers = All-map_to (GoneEnded (Ended s)) _ s.workers (λ w f g. onward (f g)) v.workers;
        some_worker = v.some_worker;
        processed = λ p. onward (v.processed p);
        loop = λ l. onward (v.loop l);
      }

  -- The loop goes on, with nothing else changed.
  pub loop-IsWound :
      (s : Service T Out) (l : Loop T Out)
      → (l ≡ left → Ended s)
      → IsWound s
      → IsWound (record s { loop = l })
  loop-IsWound s l f v = record {
    receivers = v.receivers;
    workers = v.workers;
    some_worker = v.some_worker;
    processed = v.processed;
    loop = f;
  }

  pub all_gone :
      (E : Type 0) (ws : List (Worker (Ticket T) (Outcome (System T) T Out)))
      → 1 ≤ length ws
      → All IsGone ws
      → All (GoneEnded E) ws
      → E
  all_gone E [] some_worker g v = absurd (omega arith)
  all_gone E (w ∷ ws) some_worker (g, _) (f, _) = f g

  pub own-IsAlive :
      (s : Service T Out) {q : System T} (st : Backend.Step s.memq q)
      → s.cancelled ≡ false
      → IsOwn s st
      → IsAlive st
  own-IsAlive s (published x q ok e) alive own = tt
  own-IsAlive s (sealed e) alive own = tt
  own-IsAlive s (closed e) alive own = tt
  own-IsAlive s (signalled m z e) alive own = tt
  own-IsAlive s (took pre post it q w g e) alive own = tt
  own-IsAlive s (ended pre post w g e) alive own = tt
  own-IsAlive s (parked pre post w g e) alive own = tt
  own-IsAlive s (woken pre post w k e) alive own = tt
  own-IsAlive s (delivered pre post it w e) alive own = tt
  own-IsAlive s (wait_cancelled pre post w e) alive own = cc
  own-IsAlive s (send_cancelled pre post it w e) alive own = cc
  own-IsAlive s (finalized a i e) alive own = tt

  pub after-left :
      (x : Ticket T) (a : Action) (r : Result Out) (E : Type 0) → after x a r ≡ left → E
  unfolding after is_final
  after-left x acked r E e = absurd (cc e)
  after-left x nacked r E e = absurd (cc e)
  after-left x dead_lettered r E e = absurd (cc e)
