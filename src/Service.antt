-- ===== src/Service.antt =====
-- Consume on an in-memory queue, the whole of it: the goroutine of Receive (queue/memq/memq.go), the
-- workers of Process (process.go) and the loop of Consume (queue/consume.go), joined by channels. A
-- step is one of the queue, or one communication between the three.
pub mod Carried
pub mod Projected
pub mod Wound
pub mod Ended
pub mod Owned
pub mod Held
pub mod Kept
pub mod Answered
pub mod Exact
pub mod Inflight
pub mod Progress
pub mod Alive
pub mod Limited
pub mod Measure
pub mod Untouched
pub mod Bounded
use gojob.Prelude.{
  ℕ, Bool, true, false, Option, none, some, List, [], ◌∷◌, ◌++◌, ◌≡◌, length, replicate, pos_part,
  All,
}
use gojob.Memq.{Item}
use gojob.Memq.System as Backend
use gojob.Memq.System.{
  System, checking, holding, returned, published, sealed, closed, signalled, took, ended, parked,
  woken, delivered, wait_cancelled, send_cancelled, finalized, wrap,
}
use gojob.Process.{Env, run_one}
use gojob.Process.Pool.{Worker, idle, running, offering, gone, IsGone}
use gojob.Queue.Consume.{
  Config, process_config, Outcome, Action, is_final, perform, work, action, emitted,
}
use gojob.Queue
use gojob.Task.{Error, Result}

-- A delivered message: the number of its delivery, and its item.
pub record Ticket {ℓ} (T : Type ℓ) : Type ℓ where
  pub index : ℕ
  pub item : Item T

-- Where the loop of Consume stands: at the head of the range, with a result in hand, in the select
-- that sends a result, returned, or crashed on a nil message.
pub data Loop {ℓ μ} (T : Type ℓ) (Out : Type μ) : Type (ℓ ⊔ μ) where
  ready : Loop T Out
  handling : Ticket T → Result (Outcome (System T) T Out) → Loop T Out
  emitting : Ticket T → Result Out → Loop T Out
  left : Loop T Out
  crashed : Loop T Out

-- `results` are those that the consumer of the output has received, the last one first, each beside
-- its message.
pub record Service {ℓ μ} (T : Type ℓ) (Out : Type μ) : Type (ℓ ⊔ μ) where
  pub memq : System T
  pub cancelled : Bool
  pub workers : List (Worker (Ticket T) (Outcome (System T) T Out))
  pub processed_closed : Bool
  pub loop : Loop T Out
  pub results : List (Ticket T × Result Out)

-- The loop behind the finalization: a nacked message has no result.
unfoldable pub after {ℓ μ} :
    {T : Type ℓ} {Out : Type μ} → Ticket T → Action → Result Out → Loop T Out
unfolding is_final
after x a r = elim (is_final a) [ true ↦ emitting x r | false ↦ ready ]

module _ {ℓ μ} {T : Type ℓ} {Out : Type μ} where
  -- The steps of the queue that are not a communication with a worker or a call of the loop; ctx is
  -- that of Consume.
  abbrev pub IsOwn : (s : Service T Out) {q : System T} → Backend.Step s.memq q → Type 0
  IsOwn s (delivered pre post it w e) = true ≡ false
  IsOwn s (finalized a i e) = true ≡ false
  IsOwn s (wait_cancelled pre post w e) = s.cancelled ≡ true
  IsOwn s (send_cancelled pre post it w e) = s.cancelled ≡ true
  IsOwn s _ = Unit

module _ {ℓ μ} {T : Type ℓ} {Out : Type μ} (cfg : Config) where
  unfoldable pub start : Service T Out
  unfolding process_config
  start = record {
    memq = Backend.start 1;
    cancelled = false;
    workers = replicate (pos_part (process_config cfg).workers) idle;
    processed_closed = false;
    loop = ready;
    results = [];
  }

  pub data Step (s t : Service T Out) : Type (ℓ ⊔ μ) where
    queue_step :
        (q : System T) (st : Backend.Step s.memq q)
        → IsOwn s st
        → t ≡ record s { memq = q }
        → Step s t
    -- `case out <- q.wrap(it)` meets `case input, ok := <-in`.
    handed :
        (pre post : List (Backend.Receiver T))
        (before behind : List (Worker (Ticket T) (Outcome (System T) T Out))) (it : Item T)
        → s.memq.receivers ≡ pre ++ holding it ∷ post
        → s.workers ≡ before ++ idle ∷ behind
        → t ≡ record s {
          memq = record (s.memq) {
            receivers = pre ++ checking ∷ post;
            handles = s.memq.handles ++ record { item = it; fired = false } ∷ [];
          };
          workers =
              before ++ running (record { index = length s.memq.handles; item = it }) ∷ behind;
        }
        → Step s t
    -- runOne returns; `calls` and `races` are how the attempts come out.
    worked :
        (before behind : List (Worker (Ticket T) (Outcome (System T) T Out))) (x : Ticket T)
        (zero_value : Out) (calls : ℕ → Out × Option Error) (races : ℕ → Option Error)
        (env : Env (Outcome (System T) T Out))
        → s.workers ≡ before ++ running x ∷ behind
        → ((n : ℕ) → env.call n ≡ work cfg zero_value (wrap x.index x.item) (calls n) (races n))
        → t
          ≡ record s { workers = before ++ offering x (run_one (process_config cfg) env) ∷ behind }
        → Step s t
    -- `case out <- r` meets the range over `processed`.
    passed :
        (before behind : List (Worker (Ticket T) (Outcome (System T) T Out))) (x : Ticket T)
        (r : Result (Outcome (System T) T Out))
        → s.workers ≡ before ++ offering x r ∷ behind
        → s.loop ≡ ready
        → t ≡ record s { workers = before ++ idle ∷ behind; loop = handling x r }
        → Step s t
    -- `case <-ctx.Done(): return` of the two selects of a worker.
    dropped :
        (before behind : List (Worker (Ticket T) (Outcome (System T) T Out))) (x : Ticket T)
        (r : Result (Outcome (System T) T Out))
        → s.workers ≡ before ++ offering x r ∷ behind
        → s.cancelled ≡ true
        → t ≡ record s { workers = before ++ gone ∷ behind }
        → Step s t
    stopped :
        (before behind : List (Worker (Ticket T) (Outcome (System T) T Out)))
        → s.workers ≡ before ++ idle ∷ behind
        → s.cancelled ≡ true
        → t ≡ record s { workers = before ++ gone ∷ behind }
        → Step s t
    -- `if !ok { return }`: Receive has closed its channel.
    drained :
        (before behind : List (Worker (Ticket T) (Outcome (System T) T Out)))
        → s.workers ≡ before ++ idle ∷ behind
        → s.memq.receivers ≡ returned ∷ []
        → t ≡ record s { workers = before ++ gone ∷ behind }
        → Step s t
    cancel : s.cancelled ≡ false → t ≡ record s { cancelled = true } → Step s t
    -- `wg.Wait(); close(out)` of Process.
    process_closed :
        All IsGone s.workers
        → s.processed_closed ≡ false
        → t ≡ record s { processed_closed = true }
        → Step s t
    -- The switch of the loop.
    handled :
        (x : Ticket T) (r : Result (Outcome (System T) T Out)) (m : Queue.Message (System T) T)
        → s.loop ≡ handling x r
        → r.value.msg ≡ some m
        → t ≡ record s {
          memq = perform (action cfg r m) m s.memq;
          loop = after x (action cfg r m) (emitted cfg r);
        }
        → Step s t
    crash :
        (x : Ticket T) (r : Result (Outcome (System T) T Out))
        → s.loop ≡ handling x r
        → r.value.msg ≡ none
        → t ≡ record s { loop = crashed }
        → Step s t
    -- `case out <- gojob.Result{…}`.
    sent :
        (x : Ticket T) (r : Result Out)
        → s.loop ≡ emitting x r
        → t ≡ record s { loop = ready; results = (x, r) ∷ s.results }
        → Step s t
    send_stopped :
        (x : Ticket T) (r : Result Out)
        → s.loop ≡ emitting x r
        → s.cancelled ≡ true
        → t ≡ record s { loop = left }
        → Step s t
    -- The range ends, and the output is closed.
    finished : s.loop ≡ ready → s.processed_closed ≡ true → t ≡ record s { loop = left } → Step s t

  pub data Reach (s : Service T Out) : Service T Out → Type (ℓ ⊔ μ) where
    here : Reach s s
    next : {t u : Service T Out} → Reach s t → Step t u → Reach s u
