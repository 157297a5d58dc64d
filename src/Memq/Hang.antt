-- ===== src/Memq/Hang.antt =====
-- Close with more than one Receive (queue/memq/memq.go).
use gojob.Prelude.{
  ℕ, zero, suc, ◌≡◌, refl, ap, Bool, true, false, List, [], ◌∷◌, ◌++◌, replicate, arith, ◌⊎◌, inl,
  inr,
}
use gojob.Memq.{Queue, new, close, signal, receive, finish, wait}
use gojob.Memq.System.{
  Receiver, checking, waiting, holding, returned, System, start, Step, published, sealed, closed,
  signalled, took, ended, parked, woken, delivered, wait_cancelled, send_cancelled, finalized,
  Reach, here, next,
}

module _ {ℓ} {T : Type ℓ} where
  -- The steps that the goroutines make by themselves, without a caller, a consumer's callback or ctx.
  pub is_internal : {s t : System T} → Step s t → Bool
  is_internal (signalled n z e) = true
  is_internal (took pre post it q w g e) = true
  is_internal (ended pre post w g e) = true
  is_internal (parked pre post w g e) = true
  is_internal (woken pre post w k e) = true
  is_internal (delivered pre post it w e) = true
  is_internal _ = false

  -- A queue before any publication, with these goroutines.
  abbrev idle_system : Queue T → List (Receiver T) → System T
  idle_system q rs = record {
    queue = q;
    receivers = rs;
    handles = [];
    signals = 0;
    published = [];
    acked = [];
    lost = [];
  }

  abbrev waiters : ℕ → List (Receiver T)
  waiters n = replicate n waiting

  shift : (k : ℕ) (rest : List (Receiver T)) → waiters k ++ waiting ∷ rest ≡ waiters (suc k) ++ rest
  shift zero rest = refl
  shift (suc k) rest = ap (λ l. waiting ∷ l) (shift k rest)

  new-waits : (q : Queue T) → q ≡ new → receive q ≡ wait
  unfolding receive new
  new-waits q e = rw e

  -- One Receive after the other finds the new queue empty and waits.
  park_all :
      (k m : ℕ) (s : System T)
      → Reach s (idle_system new (waiters k ++ replicate m checking))
      → Reach s (idle_system new (waiters k ++ waiters m))
  park_all k zero s r = r
  park_all k (suc m) s r =
      let parking =
        next r (parked (waiters k) (replicate m checking) refl (new-waits new refl) refl) in
      rw shift (park_all (suc k) m s (rw shift at parking))

  -- The state that Close leaves: one goroutine of Receive has returned, the others wait.
  hung : ℕ → System T
  hung n = idle_system (record (close new) { token = false }) (returned ∷ waiters (suc n))

  closed-finishes : (q : Queue T) → q ≡ record (close new) { token = false } → receive q ≡ finish
  unfolding receive new close
  closed-finishes q e = rw e

  hung-Reach : (n : ℕ) → Reach (start (suc (suc n))) (hung n)
  unfolding hung start signal
  hung-Reach n =
      let parked_all =
        park_all 0 (suc (suc n)) (idle_system new (replicate (suc (suc n)) checking)) here in
      let after_close : Reach (idle_system new (replicate (suc (suc n)) checking))
          (record (idle_system (close new) (waiters (suc (suc n)))) { signals = 1 }) =
        next parked_all (closed refl) in
      let after_signal : Reach (idle_system new (replicate (suc (suc n)) checking))
          (idle_system (signal (close new)) (waiters (suc (suc n)))) =
        next after_close (signalled 0 refl refl) in
      let awake : Reach (idle_system new (replicate (suc (suc n)) checking))
          (idle_system (record (close new) { token = false }) (checking ∷ waiters (suc n))) =
        next after_signal (woken [] (waiters (suc n)) refl refl refl) in
      next awake (ended [] (waiters (suc n)) refl (closed-finishes _ refl) refl)

  all_waiting :
      (n : ℕ) (pre post : List (Receiver T)) (r : Receiver T)
      → waiters n ≡ pre ++ r ∷ post
      → r ≡ waiting
  all_waiting zero [] post r e = cc
  all_waiting zero (x ∷ pre) post r e = cc
  all_waiting (suc n) [] post r e = cc
  all_waiting (suc n) (x ∷ pre) post r e =
      let rest : waiters n ≡ pre ++ r ∷ post = cc in all_waiting n pre post r rest

  -- No goroutine among these is before its lock or holds a message.
  none_active :
      (n : ℕ) (pre post : List (Receiver T)) (r : Receiver T)
      → returned ∷ waiters n ≡ pre ++ r ∷ post
      → (r ≡ returned) ⊎ (r ≡ waiting)
  none_active n [] post r e = inl (cc)
  none_active n (x ∷ pre) post r e =
      let rest : waiters n ≡ pre ++ r ∷ post = cc in inr (all_waiting n pre post r rest)

  hung_stuck : (n : ℕ) {t : System T} (st : Step (hung n) t) → is_internal st ≡ false
  unfolding hung is_internal
  hung_stuck n (published x q ok e) = refl
  hung_stuck n (sealed e) = refl
  hung_stuck n (closed e) = refl
  hung_stuck n (signalled m z e) = absurd (omega arith)
  hung_stuck n (took pre post it q w g e) = ground (arith, none_active (suc n) pre post checking w)
  hung_stuck n (ended pre post w g e) = ground (arith, none_active (suc n) pre post checking w)
  hung_stuck n (parked pre post w g e) = ground (arith, none_active (suc n) pre post checking w)
  hung_stuck n (woken pre post w k e) = cc k
  hung_stuck n (delivered pre post it w e) =
      ground (arith, none_active (suc n) pre post (holding it) w)
  hung_stuck n (wait_cancelled pre post w e) = refl
  hung_stuck n (send_cancelled pre post it w e) = refl
  hung_stuck n (finalized a i e) = refl

  -- With two or more calls of Receive on a queue, there is a run in which Close ends only one of them:
  -- its one token wakes one goroutine, which returns without passing it on. The queue is closed, the
  -- others wait, and no step of the goroutines themselves is left to wake them.
  pub close_leaves_waiting :
      (n : ℕ)
      → (s : System T) × Reach (start (suc (suc n))) s
        × (s.queue.is_closed ≡ true)
        × (s.receivers ≡ returned ∷ replicate (suc n) waiting)
        × ((t : System T) (st : Step s t) → is_internal st ≡ false)
  close_leaves_waiting n = (
    hung n,
    hung-Reach n,
    (unfold hung close in refl),
    (unfold hung in refl),
    λ t st. hung_stuck n st,
  )
