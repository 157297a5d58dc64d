-- ===== src/Service/Measure.antt =====
-- How far a run of Consume can still go (queue/consume.go, process.go, queue/memq/memq.go).
use gojob.Prelude.{
  ℕ, ◌+◌, ◌*◌, ◌-◌, ◌<◌, ◌≡◌, ap, Bool, [], All, sum_of, sum_of-middle, sum_of-swap, arith, length,
  append-nil, if◌then◌else◌,
}
use gojob.Memq.{Item, finalize, signal}
use gojob.Memq.Handles.{handled_by, finalize_fresh, first_call}
use gojob.Memq.Places.{receive-got}
use gojob.Memq.System as Backend
use gojob.Memq.System.{
  System, Handle, Receiver, checking, waiting, holding, returned, finalize_handle, published,
  sealed, closed, signalled, took, ended, parked, woken, delivered, wait_cancelled, send_cancelled,
  finalized,
}
use gojob.Process.Pool.{Worker, idle, running, offering, gone}
use gojob.Queue.Consume.{
  Config, Outcome, Action, acked, nacked, dead_lettered, action, emitted, is_final,
}
use gojob.Service.{
  Ticket, Loop, ready, handling, emitting, left, crashed, Service, after, IsOwn, Step, queue_step,
  handed, worked, passed, dropped, stopped, drained, cancel, process_closed, handled, crash, sent,
  send_stopped, finished,
}
use gojob.Service.Carried.{IsCarried}
use gojob.Service.Held.{handling-open}
use gojob.Service.Owned.{IsOwned}
use gojob.Service.Progress.{IsInternal}
use gojob.Service.Projected.{handled-finalize}
use gojob.Task.{Result}

abbrev token_weight : Bool → ℕ
token_weight b = if b then 3 else 0

-- With n deliveries for each message.
module _ {ℓ} {T : Type ℓ} (n : ℕ) where
  -- The deliveries that an item has left, ten steps for each.
  abbrev pub item_weight : Item T → ℕ
  item_weight it = 10 * (n - it.deliveries)

  abbrev receiver_weight : Receiver T → ℕ
  receiver_weight checking = 3
  receiver_weight waiting = 1
  receiver_weight (holding it) = item_weight it + 12
  receiver_weight returned = 0

  abbrev memq_weight : System T → ℕ
  memq_weight s =
      sum_of item_weight s.queue.pending
      + 4 * s.signals
      + token_weight s.queue.token
      + sum_of receiver_weight s.receivers

  module _ {μ} {Out : Type μ} where
    abbrev worker_weight : Worker (Ticket T) (Outcome (System T) T Out) → ℕ
    worker_weight idle = 1
    worker_weight (running x) = item_weight x.item + 9
    worker_weight (offering x r) = item_weight x.item + 8
    worker_weight gone = 0

    abbrev loop_weight : Loop T Out → ℕ
    loop_weight ready = 1
    loop_weight (handling x r) = item_weight x.item + 7
    loop_weight (emitting x r) = 2
    loop_weight left = 0
    loop_weight crashed = 0

    -- At most this many steps are left, as long as nobody calls Publish, Seal or Close.
    unfoldable pub weight : Service T Out → ℕ
    weight s =
        memq_weight s.memq
        + sum_of worker_weight s.workers
        + (if s.processed_closed then 0 else 1)
        + loop_weight s.loop

    own-weight :
        (cfg : Config) (s : Service T Out) {t : Service T Out} {q : System T}
        (st : Backend.Step s.memq q) (own : IsOwn s st) (e : t ≡ record s { memq = q })
        → IsInternal {cfg = cfg} (queue_step q st own e)
        → All (λ it. it.deliveries < n) s.memq.queue.pending
        → memq_weight q < memq_weight s.memq
    unfolding signal
    own-weight cfg s (published x q ok f) own e inside low = cc
    own-weight cfg s (sealed f) own e inside low = cc
    own-weight cfg s (closed f) own e inside low = cc
    own-weight cfg s (signalled m z f) own e inside low = rw f (ground arith)
    own-weight cfg s (took pre post it q w g f) own e inside low =
        let (first, rest, p, bumped, left_over) = receive-got s.memq.queue g in
        let (below, _) = rw p at low in
        let swapped =
          sum_of-swap receiver_weight s.memq.receivers pre post checking (holding it) w in
        let own_pending = ap (sum_of item_weight) p in
        let once_more = ap (λ i. i.deliveries) bumped in
        rw (f, left_over) (omega (arith, below, swapped, own_pending, once_more))
    own-weight cfg s (ended pre post w g f) own e inside low =
        rw f
          (omega (arith, sum_of-swap receiver_weight s.memq.receivers pre post checking returned w))
    own-weight cfg s (parked pre post w g f) own e inside low =
        rw f
          (omega (arith, sum_of-swap receiver_weight s.memq.receivers pre post checking waiting w))
    own-weight cfg s (woken pre post w k f) own e inside low =
        let had = ap token_weight k in
        rw f (
          omega
            (arith, had, sum_of-swap receiver_weight s.memq.receivers pre post waiting checking w))
    own-weight cfg s (delivered pre post it w f) own e inside low = cc
    own-weight cfg s (wait_cancelled pre post w f) own e inside low =
        rw f
          (omega (arith, sum_of-swap receiver_weight s.memq.receivers pre post waiting returned w))
    own-weight cfg s (send_cancelled pre post it w f) own e inside low = rw f (
        omega
          (arith, sum_of-swap receiver_weight s.memq.receivers pre post (holding it) returned w))
    own-weight cfg s (finalized a i f) own e inside low = cc

    handled-weight :
        (s : Service T Out) (x : Ticket T) (h : Handle T) (a : Action) (r : Result Out)
        → h.item ≡ x.item
        → memq_weight (first_call (handled_by a) x.index h s.memq) + loop_weight (after x a r)
          < memq_weight s.memq + item_weight x.item + 7
    unfolding first_call handled_by finalize after is_final
    handled-weight s x h acked r same = omega arith
    handled-weight s x h dead_lettered r same = omega arith
    handled-weight s x h nacked r same =
        let own = ap item_weight same in
        omega (
          arith,
          own,
          sum_of-middle item_weight s.memq.queue.pending [] h.item,
          ap (sum_of item_weight) (append-nil s.memq.queue.pending),
        )

    module _ (cfg : Config) where
      -- Each step that is not a call of Publish, Seal or Close, or the end of ctx, makes it less.
      pub Step-weight :
          {s t : Service T Out} (st : Step cfg s t)
          → IsInternal st
          → All (λ it. it.deliveries < n) s.memq.queue.pending
          → IsCarried cfg s
          → IsOwned s
          → weight t < weight s
      unfolding weight
      Step-weight {s} (queue_step q st own e) inside low c o =
          rw e (omega (arith, own-weight cfg s st own e inside low))
      Step-weight {s} (handed pre post before behind it w i e) inside low c o = rw e (
          omega (
            arith,
            sum_of-swap receiver_weight s.memq.receivers pre post (holding it) checking w,
            sum_of-swap worker_weight s.workers before behind idle
                (running (record { index = length s.memq.handles; item = it })) i,
          ))
      Step-weight {s} (worked before behind x z calls races env w each e) inside low c o =
          rw e (omega (arith, sum_of-swap worker_weight s.workers before behind (running x) _ w))
      Step-weight {s} (passed before behind x r w l e) inside low c o =
          let stood = ap loop_weight l in
          rw e (
            omega (
              arith,
              stood,
              sum_of-swap worker_weight s.workers before behind (offering x r) idle w,
            ))
      Step-weight {s} (dropped before behind x r w k e) inside low c o =
          rw e
            (omega (arith, sum_of-swap worker_weight s.workers before behind (offering x r) gone w))
      Step-weight {s} (stopped before behind w k e) inside low c o =
          rw e (omega (arith, sum_of-swap worker_weight s.workers before behind idle gone w))
      Step-weight {s} (drained before behind w k e) inside low c o =
          rw e (omega (arith, sum_of-swap worker_weight s.workers before behind idle gone w))
      Step-weight {s} (cancel k e) inside low c o = cc
      Step-weight {s} (process_closed all open_still e) inside low c o =
          rw (e, open_still) (omega arith)
      Step-weight {s} (handled x r k l has e) inside low c o =
          let (h, g, same, fresh, there) = handling-open s x r l o in
          let stood = ap loop_weight l in
          rw
            (
              e,
              handled-finalize cfg s x r k l has c,
              finalize_fresh (handled_by (action cfg r k)) x.index s.memq g fresh,
            )
            (omega (arith, stood, handled-weight s x h (action cfg r k) (emitted cfg r) same))
      Step-weight {s} (crash x r l k e) inside low c o =
          let stood = ap loop_weight l in rw e (omega (arith, stood))
      Step-weight {s} (sent x r l e) inside low c o =
          let stood = ap loop_weight l in rw e (omega (arith, stood))
      Step-weight {s} (send_stopped x r l k e) inside low c o =
          let stood = ap loop_weight l in rw e (omega (arith, stood))
      Step-weight {s} (finished l k e) inside low c o =
          let stood = ap loop_weight l in rw e (omega (arith, stood))
