-- ===== src/Tests/Service.antt =====
-- A run of Consume on an in-memory queue: of two messages one succeeds and one is dead-lettered.
use mathlib.Core.List.{Perm}
use gojob.Prelude.{
  ℕ, ◌-ℤ◌, ◌+◌, ◌≤◌, ◌≡◌, ◌≢◌, ◌⊎◌, arith, refl, true, false, some, none, Option, [], ◌∷◌, ◌++◌,
  All, pos,
}
use gojob.Memq.{Queue, new, publish, seal, receive, finalize, drained_locked}
use gojob.Memq.System as Backend
use gojob.Memq.System.{
  System, Receiver, checking, holding, returned, published, sealed, took, ended, finalize_handle,
  wrap,
}
use gojob.Process.{Env, run_one}
use gojob.Process.Pool.{idle, offering, gone}
use gojob.Queue.Consume.{
  Config, Outcome, process_config, action, emitted, perform, work, is_final, run_with_timeout,
}
use gojob.Queue.{ack, dead_letter}
use gojob.Service.{
  Ticket, ready, left, crashed, after, Service, start, queue_step, handed, worked, passed, drained,
  process_closed, handled, sent, finished, Reach, here, next,
}
use gojob.Service.Answered.{succeeded, failed, IsAtLimit, closed_all_results}
use gojob.Service.Bounded.{Runs, none_made, one_more, Runs-bounded, sealed_drains}
use gojob.Service.Carried.{Reach-not_crashed}
use gojob.Service.Kept.{Reach-IsOwned}
use gojob.Service.Measure.{weight}
use gojob.Service.Owned.{IsOwned}
use gojob.Service.Progress.{IsWaiting}
use gojob.Service.Alive.{Moves, alive-Moves}
use gojob.Task.{Error, Result, other}

abbrev cfg : Config
cfg = record {
  workers = pos 1;
  retries = pos 1;
  backoff = none;
  timeout = pos 0;
  max_deliveries = pos 1;
}

abbrev filled : Queue ℕ
filled = record {
  pending = record { payload = 7; deliveries = 0 } ∷ record { payload = 8; deliveries = 0 } ∷ [];
  outstanding = 2;
  is_sealed = true;
  is_closed = false;
  dead = [];
  token = false;
}

-- 7 and 8 are published, and the queue is sealed.
abbrev sealed_service : Service ℕ ℕ
sealed_service = record {
  memq = record {
    queue = filled;
    receivers = checking ∷ [];
    handles = [];
    signals = 3;
    published = 8 ∷ 7 ∷ [];
    acked = [];
    lost = [];
  };
  cancelled = false;
  workers = idle ∷ [];
  processed_closed = false;
  loop = ready;
  results = [];
}

abbrev first : Ticket ℕ
first = record { index = 0; item = record { payload = 7; deliveries = 1 } }

abbrev second : Ticket ℕ
second = record { index = 1; item = record { payload = 8; deliveries = 1 } }

abbrev no_race : ℕ → Option Error
no_race n = none

abbrev double : ℕ → ℕ × Option Error
double n = (14, none)

abbrev fail : ℕ → ℕ × Option Error
fail n = (0, some (other "boom"))

abbrev env_of : Ticket ℕ → (ℕ → ℕ × Option Error) → Env (Outcome (System ℕ) ℕ ℕ)
env_of x calls = record {
  call = λ n. work cfg 0 (wrap x.index x.item) (calls n) (no_race n);
  wait = λ n. none;
  race = λ n. none;
  zero_value = record { msg = none; out = 0 };
  started = pos 3;
  ended = pos 5;
}

abbrev first_result : Result (Outcome (System ℕ) ℕ ℕ)
first_result = record {
  value = record { msg = some (wrap 0 first.item); out = 14 };
  err = none;
  attempts = 1;
  started_at = pos 3;
  duration = pos 2;
}

abbrev second_result : Result (Outcome (System ℕ) ℕ ℕ)
second_result = record {
  value = record { msg = some (wrap 1 second.item); out = 0 };
  err = some (other "boom");
  attempts = 1;
  started_at = pos 3;
  duration = pos 2;
}

sealed-Reach : Reach cfg (start cfg) sealed_service
unfolding start Backend.start new publish seal process_config
sealed-Reach =
    next
      (next (next here (queue_step _ (published 7 _ refl refl) tt refl))
        (queue_step _ (published 8 _ refl refl) tt refl))
      (queue_step _ (sealed refl) tt refl)

-- 7 is in the worker, is doubled, acknowledged, and its result sent.
abbrev offered_service : Service ℕ ℕ
offered_service = record sealed_service {
  memq = record (sealed_service.memq) {
    queue = record filled { pending = record { payload = 8; deliveries = 0 } ∷ [] };
    handles = record { item = first.item; fired = false } ∷ [];
  };
  workers = offering first first_result ∷ [];
}

offered-Reach : Reach cfg (start cfg) offered_service
unfolding receive run_one process_config work run_with_timeout ◌-ℤ◌
offered-Reach =
    next
      (next (next sealed-Reach (queue_step _ (took [] [] first.item _ refl refl refl) tt refl))
        (handed [] [] [] [] first.item refl refl refl))
      (worked [] [] first 0 double no_race (env_of first double) refl (λ n. refl) refl)

abbrev acked_service : Service ℕ ℕ
acked_service = record offered_service {
  memq = record (offered_service.memq) {
    queue = record filled {
      pending = record { payload = 8; deliveries = 0 } ∷ [];
      outstanding = 1;
    };
    handles = record { item = first.item; fired = true } ∷ [];
    signals = 4;
    acked = 7 ∷ [];
  };
  workers = idle ∷ [];
  results = (first, emitted cfg first_result) ∷ [];
}

acked-Reach : Reach cfg (start cfg) acked_service
unfolding perform action wrap ack finalize_handle finalize after is_final
acked-Reach =
    next
      (next (next offered-Reach (passed [] [] first first_result refl refl refl))
        (handled first first_result (wrap 0 first.item) refl refl refl))
      (sent first (emitted cfg first_result) refl refl)

-- 8 fails at its only delivery.
abbrev failing_service : Service ℕ ℕ
failing_service = record acked_service {
  memq = record (acked_service.memq) {
    queue = record filled { pending = []; outstanding = 1 };
    handles =
        record { item = first.item; fired = true }
        ∷ record { item = second.item; fired = false }
        ∷ [];
  };
  workers = offering second second_result ∷ [];
}

failing-Reach : Reach cfg (start cfg) failing_service
unfolding receive run_one process_config work run_with_timeout ◌-ℤ◌
failing-Reach =
    next
      (next (next acked-Reach (queue_step _ (took [] [] second.item _ refl refl refl) tt refl))
        (handed [] [] [] [] second.item refl refl refl))
      (worked [] [] second 0 fail no_race (env_of second fail) refl (λ n. refl) refl)

abbrev dead_service : Service ℕ ℕ
dead_service = record failing_service {
  memq = record (failing_service.memq) {
    queue = record filled { pending = []; outstanding = 0; dead = 8 ∷ [] };
    handles =
        record { item = first.item; fired = true }
        ∷ record { item = second.item; fired = true }
        ∷ [];
    signals = 5;
  };
  workers = idle ∷ [];
  results = (second, emitted cfg second_result) ∷ (first, emitted cfg first_result) ∷ [];
}

dead-Reach : Reach cfg (start cfg) dead_service
unfolding perform action wrap dead_letter finalize_handle finalize after is_final
dead-Reach =
    next
      (next (next failing-Reach (passed [] [] second second_result refl refl refl))
        (handled second second_result (wrap 1 second.item) refl refl refl))
      (sent second (emitted cfg second_result) refl refl)

-- Receive finds the queue drained, and everything closes.
abbrev end_service : Service ℕ ℕ
end_service = record dead_service {
  memq = record (dead_service.memq) { receivers = returned ∷ [] };
  workers = gone ∷ [];
  processed_closed = true;
  loop = left;
}

end-Reach : Reach cfg (start cfg) end_service
unfolding receive drained_locked
end-Reach =
    next
      (next
        (next (next dead-Reach (queue_step _ (ended [] [] refl refl refl) tt refl))
          (drained [] [] refl refl refl))
        (process_closed (refl, tt) refl refl))
      (finished refl refl refl)

closed_all_results_example :
    Perm
      (end_service.memq.published)
      (failed (end_service.results) ++ succeeded (end_service.results))
    × (end_service.memq.acked ≡ succeeded (end_service.results))
    × (end_service.memq.queue.dead ≡ failed (end_service.results))
    × All (IsAtLimit cfg) (end_service.results)
closed_all_results_example = closed_all_results cfg end-Reach refl refl refl

Reach-not_crashed_example : end_service.loop ≢ crashed
Reach-not_crashed_example = Reach-not_crashed cfg end-Reach

-- Both messages are still pending.
sealed_drains_example :
    (k : ℕ) × (t : Service ℕ ℕ) × Runs cfg sealed_service k t
    × (t.loop ≡ left)
    × Perm (sealed_service.memq.published) (failed t.results ++ succeeded t.results)
sealed_drains_example = sealed_drains cfg 1 0 sealed-Reach refl refl refl refl (omega arith)

two_steps : Runs cfg dead_service 2 (record end_service { processed_closed = false; loop = ready })
unfolding receive drained_locked
two_steps =
    one_more (one_more none_made (queue_step _ (ended [] [] refl refl refl) tt refl) tt)
      (drained [] [] refl refl refl) tt

Runs-bounded_example :
    2 + weight 1 (record end_service { processed_closed = false; loop = ready })
    ≤ weight 1 dead_service
Runs-bounded_example = Runs-bounded cfg 1 dead-Reach refl (omega arith) two_steps

alive-Moves_example :
    Moves cfg failing_service ⊎ (failing_service.loop ≡ left) ⊎ IsWaiting failing_service
alive-Moves_example = alive-Moves cfg 0 failing-Reach refl

Reach-IsOwned_example : IsOwned failing_service
Reach-IsOwned_example = Reach-IsOwned cfg failing-Reach
