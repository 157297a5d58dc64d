-- ===== src/Memq/Wakeup.antt =====
-- With one Receive no wakeup is lost (queue/memq/memq.go).
use gojob.Prelude.{
  ℕ, ◌⊎◌, ◌≡◌, ◌≢◌, refl, ap, false, List, [], ◌∷◌, ◌++◌, arith, Option-cases, Bool-cases, inl, inr,
}
use gojob.Memq.{Item, Queue, Final, signal, receive, receive_from, wait, drained_locked}
use gojob.Memq.Handles.{finalize_missing, finalize_fired, finalize_fresh, first_call}
use gojob.Memq.System.{
  Receiver, checking, waiting, holding, returned, System, start, get_handle, finalize_handle, Step,
  published, sealed, closed, signalled, took, ended, parked, woken, delivered, wait_cancelled,
  send_cancelled, finalized, Reach, here, next,
}

module _ {ℓ} {T : Type ℓ} where
  -- The one goroutine of Receive; if it waits and nothing is on the way to wake it, then looking at
  -- the queue would make it wait again.
  record IsAwake (s : System T) : Type ℓ where
    receiver : Receiver T
    only : s.receivers ≡ receiver ∷ []
    no_miss : receiver ≡ waiting → s.signals ≡ 0 → s.queue.token ≡ false → receive s.queue ≡ wait

  single :
      (pre post : List (Receiver T)) (a r : Receiver T) (rs : List (Receiver T))
      → rs ≡ r ∷ []
      → rs ≡ pre ++ a ∷ post
      → (pre ≡ []) × (post ≡ []) × (a ≡ r)
  single [] post a r rs e f = (refl, cc, cc)
  single (x ∷ []) post a r rs e f = cc
  single (x ∷ y ∷ pre) post a r rs e f = cc

  -- The goroutine moved on, and does not wait.
  moved :
      (s t : System T) (pre post : List (Receiver T)) (a b : Receiver T)
      → IsAwake s
      → s.receivers ≡ pre ++ a ∷ post
      → t.receivers ≡ pre ++ b ∷ post
      → b ≢ waiting
      → IsAwake t
  moved s t pre post a b v w e busy =
      let (front, back, _) = single pre post a v.receiver s.receivers v.only w in
      record { receiver = b; only = rw (front, back) at e; no_miss = λ h. absurd (busy h) }

  finalize_handle-IsAwake :
      (a : Final) (i : ℕ) (s : System T) → IsAwake s → IsAwake (finalize_handle a i s)
  finalize_handle-IsAwake a i s v = elim (Option-cases (get_handle s.handles i)) [
    | inl missing ↦ rw (finalize_missing a i s missing) v
    | inr (h, e) ↦ elim (Bool-cases h.fired) [
      | inl used ↦ rw (finalize_fired a i s e used) v
      | inr fresh ↦ rw (finalize_fresh a i s e fresh) (
          unfold first_call in
          record { receiver = v.receiver; only = v.only; no_miss = λ h z k. absurd (omega arith) })
    ]
  ]

  Step-IsAwake : {s t : System T} → Step s t → IsAwake s → IsAwake t
  Step-IsAwake {s} (published x q ok e) v =
      rw e
        (record { receiver = v.receiver; only = v.only; no_miss = λ h z k. absurd (omega arith) })
  Step-IsAwake {s} (sealed e) v =
      rw e
        (record { receiver = v.receiver; only = v.only; no_miss = λ h z k. absurd (omega arith) })
  Step-IsAwake {s} (closed e) v =
      rw e
        (record { receiver = v.receiver; only = v.only; no_miss = λ h z k. absurd (omega arith) })
  Step-IsAwake {s} (signalled n z e) v =
      rw e (unfold signal in record { receiver = v.receiver; only = v.only; no_miss = λ h z k. cc })
  Step-IsAwake {s} {t} (took pre post it q w g e) v =
      moved s t pre post checking (holding it) v w (ap (λ u. u.receivers) e) (λ h. cc)
  Step-IsAwake {s} {t} (ended pre post w g e) v =
      moved s t pre post checking returned v w (ap (λ u. u.receivers) e) (λ h. cc)
  Step-IsAwake {s} (parked pre post w g e) v =
      let (front, back, _) = single pre post checking v.receiver s.receivers v.only w in
      rw (e, front, back) (record { receiver = waiting; only = refl; no_miss = λ h z k. g })
  Step-IsAwake {s} {t} (woken pre post w k e) v =
      moved s t pre post waiting checking v w (ap (λ u. u.receivers) e) (λ h. cc)
  Step-IsAwake {s} {t} (delivered pre post it w e) v =
      moved s t pre post (holding it) checking v w (ap (λ u. u.receivers) e) (λ h. cc)
  Step-IsAwake {s} {t} (wait_cancelled pre post w e) v =
      moved s t pre post waiting returned v w (ap (λ u. u.receivers) e) (λ h. cc)
  Step-IsAwake {s} {t} (send_cancelled pre post it w e) v =
      moved s t pre post (holding it) returned v w (ap (λ u. u.receivers) e) (λ h. cc)
  Step-IsAwake {s} (finalized a i e) v = rw e (finalize_handle-IsAwake a i s v)

  Reach-IsAwake : {s : System T} → Reach (start 1) s → IsAwake s
  Reach-IsAwake here =
      unfold start in record { receiver = checking; only = refl; no_miss = λ h. cc }
  Reach-IsAwake (next r st) = Step-IsAwake st (Reach-IsAwake r)

  one_cases :
      (r : Receiver T) (rs : List (Receiver T))
      → rs ≡ r ∷ []
      → (rs ≡ checking ∷ [])
        ⊎ (rs ≡ waiting ∷ [])
        ⊎ ((it : Item T) × (rs ≡ holding it ∷ []))
        ⊎ (rs ≡ returned ∷ [])
  one_cases checking rs e = inl e
  one_cases waiting rs e = inr (inl e)
  one_cases (holding it) rs e = inr (inr (inl (it, e)))
  one_cases returned rs e = inr (inr (inr e))

  -- Where the one goroutine of Receive stands.
  pub receiver_cases :
      {s : System T}
      → Reach (start 1) s
      → (s.receivers ≡ checking ∷ [])
        ⊎ (s.receivers ≡ waiting ∷ [])
        ⊎ ((it : Item T) × (s.receivers ≡ holding it ∷ []))
        ⊎ (s.receivers ≡ returned ∷ [])
  receiver_cases {s} p = let v = Reach-IsAwake p in one_cases v.receiver s.receivers v.only

  receive_from-wait :
      (xs : List (Item T)) (q : Queue T)
      → receive_from xs q ≡ wait
      → (xs ≡ []) × (q.is_closed ≡ false) × (drained_locked q ≡ false)
  unfolding receive_from
  receive_from-wait [] q e = ground arith
  receive_from-wait (x ∷ xs) q e = cc

  -- On a queue with one Receive, its goroutine never sleeps through an event: where it waits and no
  -- signal is in the channel or on its way, nothing is pending, and the queue is neither closed nor
  -- drained.
  pub no_lost_wakeup :
      {s : System T}
      → Reach (start 1) s
      → s.receivers ≡ waiting ∷ []
      → s.signals ≡ 0
      → s.queue.token ≡ false
      → (s.queue.pending ≡ []) × (s.queue.is_closed ≡ false) × (drained_locked s.queue ≡ false)
  no_lost_wakeup {s} r w z k =
      let v = Reach-IsAwake r in
      let same : v.receiver ≡ waiting = cc (v.only) in
      receive_from-wait s.queue.pending s.queue (unfold receive in v.no_miss same z k)
