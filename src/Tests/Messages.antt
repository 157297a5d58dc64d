-- ===== src/Tests/Messages.antt =====
-- Tests of queue/queue.go, queue/fill.go and queue/consume.go, on a queue that counts calls.
use gojob.Prelude.{ℕ, ◌+◌, ◌≡◌, refl, true, Option, none, some, List, [], ◌∷◌, pos, negsuc, All}
use gojob.Process.{Env}
use gojob.Queue.{Message, Handlers, Handler}
use gojob.Queue.Consume.{
  Config, Outcome, is_final, perform, action, consume_loop, work, defaults, apply_options,
  with_max_deliveries, with_timeout, emitted,
}
use gojob.Queue.Consume.Handled.{IsRun, consume_loop-IsRun}
use gojob.Queue.Consume.Round.{HasMessage}
use gojob.Queue.Fill.{IsFill, fill, fill-IsFill}
use gojob.Stream.{Stream, accept, cancel}
use gojob.Task.{Error, deadline_exceeded, other, Result, queue_closed}

-- The calls that a backend has seen, the last one first.
abbrev Log : Type 0
Log = List ℕ

abbrev handlers : ℕ → Handlers Log
handlers x = record {
  ack = some (λ q. ((10 + x) ∷ q, none));
  nack = some (λ q. ((20 + x) ∷ q, none));
  dead_letter = none;
}

-- A payload, on its first or third delivery.
abbrev first_try : ℕ → Message Log ℕ
first_try x = record { payload = x; deliveries = pos 1; handlers = handlers x }

abbrev third_try : ℕ → Message Log ℕ
third_try x = record { payload = x; deliveries = pos 3; handlers = handlers x }

-- At most three deliveries.
abbrev cfg : Config
cfg = record {
  workers = pos 2;
  retries = pos 2;
  backoff = none;
  timeout = pos 9;
  max_deliveries = pos 3;
}

cfg_by_options :
    apply_options
      (with_timeout (pos 9) ∷ with_max_deliveries (pos 3) ∷ with_max_deliveries (negsuc 0) ∷ [])
      defaults
    ≡ record cfg { workers = pos 1; retries = pos 1 }
unfolding apply_options with_timeout with_max_deliveries defaults
cfg_by_options = refl

abbrev res : Message Log ℕ → Option Error → Result (Outcome Log ℕ ℕ)
res m e = record {
  value = record { msg = some m; out = m.payload };
  err = e;
  attempts = 1;
  started_at = pos 0;
  duration = pos 0;
}

-- One success, one failure to deliver again, and one that has used up its deliveries.
abbrev results : List (Result (Outcome Log ℕ ℕ))
results =
    res (first_try 1) none
    ∷ res (first_try 2) (some (other "boom"))
    ∷ res (third_try 3) (some (other "boom"))
    ∷ []

have_messages : All HasMessage results
have_messages = ((first_try 1, refl), ((first_try 2, refl), ((third_try 3, refl), tt)))

-- The second result is silent; the third falls back to Ack, since there is no dead-letter store.
two_results :
    ((consume_loop cfg [] results true (accept ∷ accept ∷ [])).queue ≡ 13 ∷ 22 ∷ 11 ∷ [])
    × ((consume_loop cfg [] results true (accept ∷ accept ∷ [])).output ≡ record {
      items =
          emitted cfg (res (first_try 1) none)
          ∷ emitted cfg (res (third_try 3) (some (other "boom")))
          ∷ [];
      closed = true;
    })
unfolding consume_loop action is_final perform
two_results = (refl, refl)

consume_loop-IsRun_example :
    IsRun cfg [] results true (consume_loop cfg [] results true (accept ∷ cancel ∷ []))
consume_loop-IsRun_example =
    consume_loop-IsRun cfg [] results true (accept ∷ cancel ∷ []) have_messages

abbrev last_try : Result (Outcome Log ℕ ℕ)
last_try = res (third_try 3) (some (other "boom"))

-- Every attempt times out; the handle is there all the same.
abbrev calls : ℕ → ℕ × Option Error
calls n = (7, none)

abbrev races : ℕ → Option Error
races n = some deadline_exceeded

abbrev timing_out : Env (Outcome Log ℕ ℕ)
timing_out = record {
  call = λ n. work cfg 0 (first_try 5) (calls n) (races n);
  wait = λ n. none;
  race = λ n. none;
  zero_value = record { msg = none; out = 0 };
  started = pos 0;
  ended = pos 20;
}

-- A queue that takes two payloads.
abbrev publish : ℕ → Handler Log
publish x [] = (x ∷ [], none)
publish x (a ∷ []) = (x ∷ a ∷ [], none)
publish x (a ∷ b ∷ q) = (a ∷ b ∷ q, some queue_closed)

abbrev input : Stream ℕ
input = record { items = 1 ∷ 2 ∷ 3 ∷ []; closed = true }

third_refused :
    fill publish (other "ctx") [] input (accept ∷ accept ∷ accept ∷ accept ∷ [])
    ≡ record { count = 2; err = some queue_closed; queue = 2 ∷ 1 ∷ []; finished = true }
unfolding fill
third_refused = refl

fill-IsFill_example :
    IsFill publish
      (other "ctx")
      []
      input.items
      true
      0
      (fill publish (other "ctx") [] input (accept ∷ accept ∷ []))
fill-IsFill_example = fill-IsFill publish (other "ctx") [] input (accept ∷ accept ∷ [])
