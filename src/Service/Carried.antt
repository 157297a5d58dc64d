-- ===== src/Service/Carried.antt =====
-- The messages that travel through the workers (queue/consume.go, process.go).
use gojob.Prelude.{
  ◌≡◌, ◌≢◌, Bool, true, false, some, All, All-middle, All-swap, All-replicate, Bool-cases, inl, inr,
}
use gojob.Memq.System.{System, wrap}
use gojob.Process.Pool.{Worker, idle, running, offering, gone}
use gojob.Queue.Consume.{Config, Outcome, Action, is_final, action, emitted}
use gojob.Queue.Consume.Carried.{run_one_carries}
use gojob.Service.{
  Ticket, Loop, handling, crashed, Service, after, start, Step, queue_step, handed, worked, passed,
  dropped, stopped, drained, cancel, process_closed, handled, crash, sent, send_stopped, finished,
  Reach, here, next,
}
use gojob.Task.{Result}

module _ {ℓ μ} {T : Type ℓ} {Out : Type μ} (cfg : Config) where
  -- The result carries the message of the ticket.
  abbrev pub Carries : Ticket T → Result (Outcome (System T) T Out) → Type ℓ
  Carries x r = r.value.msg ≡ some (wrap x.index x.item)

  abbrev WorkerCarries : Worker (Ticket T) (Outcome (System T) T Out) → Type ℓ
  WorkerCarries (offering x r) = Carries x r
  WorkerCarries _ = Unit

  abbrev LoopCarries : Loop T Out → Type ℓ
  LoopCarries (handling x r) = Carries x r
  LoopCarries crashed = ◌≡◌ {A = Bool} true false × Unit
  LoopCarries _ = Unit

  pub record IsCarried (s : Service T Out) : Type ℓ where
    pub workers : All WorkerCarries s.workers
    pub loop : LoopCarries s.loop

  after-carries : (x : Ticket T) (a : Action) (r : Result Out) → LoopCarries (after x a r)
  unfolding after
  after-carries x a r = elim (Bool-cases (is_final a)) [
    | inl final ↦ rw (after, final) tt
    | inr again ↦ rw (after, again) tt
  ]

  Step-IsCarried : {s t : Service T Out} → Step cfg s t → IsCarried s → IsCarried t
  Step-IsCarried (queue_step q st own e) v = rw e (record { workers = v.workers; loop = v.loop })
  Step-IsCarried (handed pre post before behind it w i e) v = rw e (record {
    workers = All-swap WorkerCarries before behind idle _ (rw i at v.workers) tt;
    loop = v.loop;
  })
  Step-IsCarried (worked before behind x zero_value calls races env w each e) v =
      let (carried, _) =
        run_one_carries cfg zero_value (wrap x.index x.item) calls races env each in
      rw e (record {
        workers = All-swap WorkerCarries before behind (running x) _ (rw w at v.workers) carried;
        loop = v.loop;
      })
  Step-IsCarried (passed before behind x r w l e) v = rw e (record {
    workers = All-swap WorkerCarries before behind (offering x r) idle (rw w at v.workers) tt;
    loop = All-middle WorkerCarries before behind {x = offering x r} (rw w at v.workers);
  })
  Step-IsCarried (dropped before behind x r w c e) v = rw e (record {
    workers = All-swap WorkerCarries before behind (offering x r) gone (rw w at v.workers) tt;
    loop = v.loop;
  })
  Step-IsCarried (stopped before behind w c e) v = rw e (record {
    workers = All-swap WorkerCarries before behind idle gone (rw w at v.workers) tt;
    loop = v.loop;
  })
  Step-IsCarried (drained before behind w c e) v = rw e (record {
    workers = All-swap WorkerCarries before behind idle gone (rw w at v.workers) tt;
    loop = v.loop;
  })
  Step-IsCarried (cancel c e) v = rw e (record { workers = v.workers; loop = v.loop })
  Step-IsCarried (process_closed all open_still e) v =
      rw e (record { workers = v.workers; loop = v.loop })
  Step-IsCarried (handled x r m l has e) v =
      rw e (record { workers = v.workers; loop = after-carries x (action cfg r m) (emitted cfg r) })
  Step-IsCarried {s} (crash x r l none_left e) v = let carried : Carries x r = rw l at v.loop in cc
  Step-IsCarried (sent x r l e) v = rw e (record { workers = v.workers; loop = tt })
  Step-IsCarried (send_stopped x r l c e) v = rw e (record { workers = v.workers; loop = tt })
  Step-IsCarried (finished l c e) v = rw e (record { workers = v.workers; loop = tt })

  start-IsCarried : IsCarried (start cfg)
  unfolding start
  start-IsCarried = record { workers = All-replicate WorkerCarries _ idle tt; loop = tt }

  pub Reach-IsCarried : {s : Service T Out} → Reach cfg (start cfg) s → IsCarried s
  Reach-IsCarried here = start-IsCarried
  Reach-IsCarried (next p st) = Step-IsCarried st (Reach-IsCarried p)

  -- Consume never dereferences a nil message, however the calls of fn come out and whatever ctx does.
  pub Reach-not_crashed : {s : Service T Out} → Reach cfg (start cfg) s → s.loop ≢ crashed
  Reach-not_crashed p e =
      let v = (Reach-IsCarried p).loop in let no : LoopCarries crashed = rw e at v in cc
