-- ===== src/Memq/Drained.antt =====
-- When Receive ends because the queue has drained, and when it cannot (queue/memq/memq.go).
use mathlib.Core.List.{Perm}
use gojob.Prelude.{
  ℕ, zero, suc, ◌≤◌, ◌<◌, ◌≡◌, refl, true, false, List, [], ◌∷◌, ◌++◌, append-nil, length, arith,
  replicate,
}
use gojob.Memq.{Queue, Final, new, drained_locked}
use gojob.Memq.Conservation.{Reach-places}
use gojob.Memq.Outstanding.{IsCounted, Step-IsCounted}
use gojob.Memq.Places.{carried, open_items}
use gojob.Memq.System.{
  checking, System, start, finalize_handle, Step, published, sealed, closed, signalled, took, ended,
  parked, woken, delivered, wait_cancelled, send_cancelled, finalized, Reach, here, next,
}

eq_nil_of_length {ℓ} : {A : Type ℓ} (xs : List A) → length xs ≡ 0 → xs ≡ []
eq_nil_of_length [] h = refl
eq_nil_of_length (x ∷ xs) h = absurd (omega arith)

pub drained-cases {ℓ} :
    {T : Type ℓ} (q : Queue T)
    → drained_locked q ≡ true
    → (q.is_sealed ≡ true) × (q.outstanding ≡ 0) × (q.pending ≡ [])
unfolding drained_locked
drained-cases q h = ground arith

module _ {ℓ} {T : Type ℓ} where
  carried-checking : (n : ℕ) → carried {T = T} (replicate n checking) ≡ []
  unfolding carried
  carried-checking zero = refl
  carried-checking (suc n) = carried-checking n

  start-IsCounted : (s : System T) (n : ℕ) → s ≡ start n → IsCounted s
  unfolding start new open_items
  start-IsCounted s n e = rw e (rw carried-checking (omega arith))

  Reach-IsCounted : {s t : System T} → Reach s t → IsCounted s → IsCounted t
  Reach-IsCounted here c = c
  Reach-IsCounted (next r st) c = Step-IsCounted st (Reach-IsCounted r c)

  -- `outstanding` is at all times the number of messages that are pending, held by a Receive,
  -- delivered and not finalized, or dropped by a cancelled Receive.
  pub outstanding_counts : (n : ℕ) {s : System T} → Reach (start n) s → IsCounted s
  outstanding_counts n r = Reach-IsCounted r (start-IsCounted (start n) n refl)

  -- Where the queue counts as drained, so that Receive closes its channel, every payload that was
  -- published has been acknowledged or dead-lettered, as often as it was published: none is pending,
  -- in the hands of a consumer, or dropped.
  pub drained_all_finalized :
      (n : ℕ) {s : System T}
      → Reach (start n) s
      → drained_locked s.queue ≡ true
      → Perm s.published (s.queue.dead ++ s.acked)
  drained_all_finalized n {s} r d =
      let (_, zero_left, p) = drained-cases s.queue d in
      let c = outstanding_counts n r in
      let no_carried = eq_nil_of_length (carried s.receivers) (omega arith) in
      let no_open = eq_nil_of_length (open_items s.handles) (omega arith) in
      let no_lost = eq_nil_of_length s.lost (omega arith) in
      rw (p, no_carried, no_open, no_lost, append-nil) at (Reach-places n r)

  finalize_handle-lost : (a : Final) (i : ℕ) (s : System T) → (finalize_handle a i s).lost ≡ s.lost
  unfolding finalize_handle
  finalize_handle-lost a i s = ground arith

  Step-lost : {s t : System T} → Step s t → length s.lost ≤ length t.lost
  Step-lost (published x q ok e) = rw e (omega arith)
  Step-lost (sealed e) = rw e (omega arith)
  Step-lost (closed e) = rw e (omega arith)
  Step-lost (signalled n z e) = rw e (omega arith)
  Step-lost (took pre post it q w g e) = rw e (omega arith)
  Step-lost (ended pre post w g e) = rw e (omega arith)
  Step-lost (parked pre post w g e) = rw e (omega arith)
  Step-lost (woken pre post w k e) = rw e (omega arith)
  Step-lost (delivered pre post it w e) = rw e (omega arith)
  Step-lost (wait_cancelled pre post w e) = rw e (omega arith)
  Step-lost (send_cancelled pre post it w e) = rw e (omega arith)
  Step-lost (finalized a i e) = rw (e, finalize_handle-lost) (omega arith)

  Reach-lost : {s t : System T} → Reach s t → length s.lost ≤ length t.lost
  Reach-lost here = omega arith
  Reach-lost (next r st) = omega (arith, Reach-lost r, Step-lost st)

  counted_not_drained :
      (s : System T) → IsCounted s → 0 < length s.lost → drained_locked s.queue ≡ false
  unfolding drained_locked
  counted_not_drained s c l = ground arith

  -- A Receive that is cancelled while it holds a message drops it for good: from then on the queue
  -- never counts as drained, whatever is published, finalized or received later, so that no Receive
  -- of the sealed queue ends by draining.
  pub lost_never_drains :
      (n : ℕ) {s t : System T}
      → Reach (start n) s
      → 0 < length s.lost
      → Reach s t
      → drained_locked t.queue ≡ false
  lost_never_drains n {s} {t} r l more =
      counted_not_drained t (Reach-IsCounted more (outstanding_counts n r))
        (omega (arith, Reach-lost more))
