-- ===== src/Service/Owned.antt =====
-- Each delivered message that is not finalized is in the hands of one worker or of the loop
-- (queue/consume.go, process.go, queue/memq/memq.go).
use gojob.Prelude.{ℕ, ◌+◌, ◌≤◌, ◌≡◌, List, [], ◌∷◌, ◌++◌, All, one_if, arith}
use gojob.Memq.Open.{open_at, Names}
use gojob.Memq.System.{System, Handle}
use gojob.Process.Pool.{Worker, running, offering}
use gojob.Queue.Consume.{Outcome}
use gojob.Service.{Ticket, Loop, handling, Service}

module _ {ℓ} {T : Type ℓ} where
  abbrev pub ticket_count : ℕ → List (Ticket T) → ℕ
  ticket_count i [] = 0
  ticket_count i (x ∷ xs) = one_if x.index i + ticket_count i xs

  pub ticket_count-append :
      (i : ℕ) (xs ys : List (Ticket T))
      → ticket_count i (xs ++ ys) ≡ ticket_count i xs + ticket_count i ys
  ticket_count-append i [] ys = omega arith
  ticket_count-append i (x ∷ xs) ys = omega (arith, ticket_count-append i xs ys)

module _ {ℓ μ} {T : Type ℓ} {Out : Type μ} where
  -- The tickets of workers, and of the loop before it finalizes.
  abbrev pub worker_ticket : Worker (Ticket T) (Outcome (System T) T Out) → List (Ticket T)
  worker_ticket (running x) = x ∷ []
  worker_ticket (offering x r) = x ∷ []
  worker_ticket _ = []

  abbrev pub tickets : List (Worker (Ticket T) (Outcome (System T) T Out)) → List (Ticket T)
  tickets [] = []
  tickets (w ∷ ws) = worker_ticket w ++ tickets ws

  abbrev pub loop_ticket : Loop T Out → List (Ticket T)
  loop_ticket (handling x r) = x ∷ []
  loop_ticket _ = []

  abbrev pub held : Service T Out → List (Ticket T)
  held s = loop_ticket s.loop ++ tickets s.workers

  tickets-append :
      (vs ws : List (Worker (Ticket T) (Outcome (System T) T Out))) (i : ℕ)
      → ticket_count i (tickets (vs ++ ws))
        ≡ ticket_count i (tickets vs) + ticket_count i (tickets ws)
  tickets-append [] ws i = omega arith
  tickets-append (v ∷ vs) ws i = omega (
    arith,
    tickets-append vs ws i,
    ticket_count-append i (worker_ticket v) (tickets vs),
    ticket_count-append i (worker_ticket v) (tickets (vs ++ ws)),
  )

  abbrev pub WorkerNamed : List (Handle T) → Worker (Ticket T) (Outcome (System T) T Out) → Type ℓ
  WorkerNamed hs w = All (λ x. Names hs x.index x.item) (worker_ticket w)

  -- No delivery is held twice, or once it is finalized, and a ticket has the item of its delivery.
  pub record IsOwned (s : Service T Out) : Type ℓ where
    pub at_most : (i : ℕ) → ticket_count i (held s) ≤ open_at s.memq.handles i
    pub named : All (WorkerNamed s.memq.handles) s.workers
    pub in_loop : All (λ x. Names s.memq.handles x.index x.item) (loop_ticket s.loop)

  -- A worker in the middle, by the tickets of the others.
  pub middle_count :
      (before behind : List (Worker (Ticket T) (Outcome (System T) T Out)))
      (w : Worker (Ticket T) (Outcome (System T) T Out)) (i : ℕ)
      → ticket_count i (tickets (before ++ w ∷ behind))
        ≡ ticket_count i (worker_ticket w) + ticket_count i (tickets (before ++ behind))
  middle_count before behind w i = omega (
    arith,
    tickets-append before (w ∷ behind) i,
    tickets-append before behind i,
    ticket_count-append i (worker_ticket w) (tickets behind),
  )
