-- ===== src/Tests/Memory.antt =====
-- Tests of queue/memq/memq.go: runs of one message, and of one whose Receive is cancelled.
use mathlib.Core.List.{Perm}
use gojob.Prelude.{
  sym, All, pos, none, some, ℕ, ◌≡◌, refl, true, false, [], ◌∷◌, ◌++◌, replicate, arith,
}
use gojob.Memq.{
  Item, Queue, final_ack, final_nack, new, publish, seal, close, receive, finalize, drained_locked,
  finish, got,
}
use gojob.Memq.Conservation.{Reach-places}
use gojob.Memq.Drained.{drained_all_finalized, lost_never_drains}
use gojob.Memq.Handles.{handled_by}
use gojob.Memq.Hang.{is_internal, close_leaves_waiting}
use gojob.Memq.Limit.{ByConsume, ConsumedReach, HandedWithin, delivered_at_most}
use gojob.Memq.Places.{places}
use gojob.Memq.System.{
  checking, waiting, holding, returned, System, start, finalize_handle, wrap, Step, published,
  sealed, took, parked, delivered, send_cancelled, finalized, Reach, here, next,
}
use gojob.Queue.Consume.{Config, Outcome, action}
use gojob.Task.{Result, other}

abbrev fresh_item : Item ℕ
fresh_item = record { payload = 7; deliveries = 0 }

abbrev first_delivery : Item ℕ
first_delivery = record { payload = 7; deliveries = 1 }

abbrev filled : Queue ℕ
filled = record {
  pending = fresh_item ∷ [];
  outstanding = 1;
  is_sealed = false;
  is_closed = false;
  dead = [];
  token = false;
}

-- 7 is published and the queue is sealed.
abbrev sealed_system : System ℕ
sealed_system = record {
  queue = record filled { is_sealed = true };
  receivers = checking ∷ [];
  handles = [];
  signals = 2;
  published = 7 ∷ [];
  acked = [];
  lost = [];
}

sealed-Reach : Reach (start 1) sealed_system
unfolding start new publish seal
sealed-Reach =
    next {t = record sealed_system { queue = filled; signals = 1 }}
      (next here (published 7 filled refl refl)) (sealed refl)

abbrev holding_system : System ℕ
holding_system = record sealed_system {
  queue = record filled { is_sealed = true; pending = [] };
  receivers = holding first_delivery ∷ [];
}

holding-Reach : Reach (start 1) holding_system
unfolding receive
holding-Reach =
    next sealed-Reach
      (took [] [] first_delivery (record filled { is_sealed = true; pending = [] }) refl refl refl)

abbrev handed_system : System ℕ
handed_system = record holding_system {
  receivers = checking ∷ [];
  handles = record { item = first_delivery; fired = false } ∷ [];
}

handed-Reach : Reach (start 1) handed_system
handed-Reach = next holding-Reach (delivered [] [] first_delivery refl refl)

abbrev acked_system : System ℕ
acked_system = record handed_system {
  queue = record filled { is_sealed = true; pending = []; outstanding = 0 };
  handles = record { item = first_delivery; fired = true } ∷ [];
  signals = 3;
  acked = 7 ∷ [];
}

acked-Reach : Reach (start 1) acked_system
unfolding finalize_handle finalize
acked-Reach = next handed-Reach (finalized final_ack 0 refl)

abbrev lost_system : System ℕ
lost_system = record holding_system { receivers = returned ∷ []; lost = 7 ∷ [] }

lost-Reach : Reach (start 1) lost_system
lost-Reach = next holding-Reach (send_cancelled [] [] first_delivery refl refl)

-- A Receive that waits on an open queue.
abbrev asleep_system : System ℕ
unfolding new
asleep_system = record {
  queue = new;
  receivers = waiting ∷ [];
  handles = [];
  signals = 0;
  published = [];
  acked = [];
  lost = [];
}

asleep-Reach : Reach (start 1) asleep_system
unfolding start new receive drained_locked
asleep-Reach = next here (parked [] [] refl refl refl)

drained_all_finalized_example :
    Perm (acked_system.published) (acked_system.queue.dead ++ acked_system.acked)
unfolding drained_locked
drained_all_finalized_example = drained_all_finalized 1 acked-Reach refl

Reach-places_example : Perm (lost_system.published) (places lost_system)
Reach-places_example = Reach-places 1 lost-Reach

lost_never_drains_example : drained_locked (lost_system.queue) ≡ false
lost_never_drains_example = lost_never_drains 1 lost-Reach (omega arith) here

close_leaves_waiting_example :
    (s : System ℕ) × Reach (start 2) s
    × (s.queue.is_closed ≡ true)
    × (s.receivers ≡ returned ∷ replicate 1 waiting)
    × ((t : System ℕ) (st : Step s t) → is_internal st ≡ false)
close_leaves_waiting_example = close_leaves_waiting 0

-- A nacked message goes to the back of the queue with its deliveries counted.
nacked_again :
    receive (finalize_handle final_nack 0 handed_system).queue
    ≡ got
        (record first_delivery { deliveries = 2 })
        (record filled { is_sealed = true; pending = [] })
unfolding finalize_handle finalize receive
nacked_again = refl

-- A closed queue refuses, and ends a Receive that has nothing to take.
closed_finishes : receive (close (new {T = ℕ})) ≡ finish
unfolding close new receive drained_locked
closed_finishes = refl

abbrev three_deliveries : Config
three_deliveries = record {
  workers = pos 1;
  retries = pos 1;
  backoff = none;
  timeout = pos 0;
  max_deliveries = pos 3;
}

abbrev failed : Result (Outcome (System ℕ) ℕ ℕ)
failed = record {
  value = record { msg = none; out = 0 };
  err = some (other "boom");
  attempts = 1;
  started_at = pos 0;
  duration = pos 0;
}

abbrev nacked_system : System ℕ
nacked_system = record handed_system {
  queue = record filled { is_sealed = true; pending = first_delivery ∷ [] };
  handles = record { item = first_delivery; fired = true } ∷ [];
  signals = 3;
}

consumed : ConsumedReach ℕ three_deliveries (start 1) handed_system
unfolding start new publish seal receive ByConsume
consumed =
    ConsumedReach.next {t = holding_system}
      (ConsumedReach.next {t = sealed_system}
        (ConsumedReach.next {t = record sealed_system { queue = filled; signals = 1 }}
          (ConsumedReach.next ConsumedReach.here (published 7 filled refl refl) tt) (sealed refl)
          tt)
        (took [] [] first_delivery (record filled { is_sealed = true; pending = [] }) refl refl
          refl)
        tt)
      (delivered [] [] first_delivery refl refl) tt

-- The first delivery fails, and the message is pending again.
consumed_once : ConsumedReach ℕ three_deliveries (start 1) nacked_system
unfolding finalize_handle finalize ByConsume action handled_by wrap
consumed_once = ConsumedReach.next consumed (finalized final_nack 0 refl) (λ h g.
    let same : record { item = first_delivery; fired = false } ≡ h = cc in
    (failed, rw (sym same) refl))

delivered_at_most_example : All (HandedWithin 3) (nacked_system.handles)
delivered_at_most_example =
    delivered_at_most ℕ three_deliveries 3 refl (omega arith) 1 consumed_once
