-- ===== src/Memq/Ended.antt =====
-- When a goroutine of Receive returns without a cancellation, and that it stays so
-- (queue/memq/memq.go).
use gojob.Prelude.{
  ℕ, ◌≡◌, ◌⊎◌, inl, inr, refl, true, some, none, List, [], ◌∷◌, Bool-cases, Option-cases, arith,
}
use gojob.Memq.{
  Item, Queue, Final, final_ack, final_nack, final_dead, drained_locked, Next, receive,
  receive_from, got, finish, wait, publish, seal, close, signal, finalize,
}
use gojob.Memq.Drained.{drained-cases}
use gojob.Memq.Handles.{finalize_missing, finalize_fired, finalize_fresh, first_call}
use gojob.Memq.Outstanding.{IsCounted, open_count-fire}
use gojob.Memq.Places.{receive-got}
use gojob.Memq.System.{
  System, Handle, get_handle, finalize_handle, Step, published, sealed, closed, signalled, took,
  ended, parked, woken, delivered, wait_cancelled, send_cancelled, finalized,
}

module _ {ℓ} {T : Type ℓ} where
  -- Closed, or drained.
  abbrev pub IsEnded : Queue T → Type 0
  IsEnded q = (q.is_closed ≡ true) ⊎ (drained_locked q ≡ true)

  receive_from-IsEnded : (xs : List (Item T)) (q : Queue T) → receive_from xs q ≡ finish → IsEnded q
  unfolding receive_from
  receive_from-IsEnded [] q e = elim (Bool-cases q.is_closed) [
    | inl closed_now ↦ inl closed_now
    | inr open_still ↦ inr (ground arith)
  ]
  receive_from-IsEnded (x ∷ xs) q e = ground arith

  -- Receive ends only there.
  pub receive-IsEnded : (q : Queue T) → receive q ≡ finish → IsEnded q
  unfolding receive
  receive-IsEnded q e = receive_from-IsEnded q.pending q e

  finalize-closed :
      (a : Final) (it : Item T) (q : Queue T) → (finalize a it q).is_closed ≡ q.is_closed
  unfolding finalize
  finalize-closed final_ack it q = refl
  finalize-closed final_nack it q = refl
  finalize-closed final_dead it q = refl

  -- A drained queue has no message that is not finalized.
  drained_all_fired :
      (s : System T) (i : ℕ) {h : Handle T}
      → IsCounted s
      → drained_locked s.queue ≡ true
      → get_handle s.handles i ≡ some h
      → h.fired ≡ true
  drained_all_fired s i {h} c d e = elim (Bool-cases h.fired) [
    | inl used ↦ used
    | inr fresh ↦
        let (_, none_left, _) = drained-cases s.queue d in
        absurd (omega (arith, open_count-fire s.handles i e fresh, c, none_left))
  ]

  finalize_handle-IsEnded :
      (a : Final) (i : ℕ) (s : System T)
      → IsCounted s
      → IsEnded s.queue
      → IsEnded (finalize_handle a i s).queue
  unfolding first_call
  finalize_handle-IsEnded a i s c v = elim (Option-cases (get_handle s.handles i)) [
    | inl missing ↦ rw (finalize_missing a i s missing) v
    | inr (h, e) ↦ elim (Bool-cases h.fired) [
      | inl used ↦ rw (finalize_fired a i s e used) v
      | inr fresh ↦ elim v [
        | inl shut ↦ rw (finalize_fresh a i s e fresh) (inl (rw finalize-closed shut))
        | inr done ↦ let used = drained_all_fired s i c done e in absurd (cc (used, fresh))
      ]
    ]
  ]

  -- An ended queue refuses what is published.
  publish-IsEnded :
      (x : T) (q : Queue T) {q' : Queue T} → publish x q ≡ (q', none) → IsEnded q → IsEnded q'
  unfolding publish
  publish-IsEnded x q ok (inl shut) = absurd (ground arith)
  publish-IsEnded x q ok (inr done) =
      let (is_sealed, _, _) = drained-cases q done in absurd (ground arith)

  seal-IsEnded : (q : Queue T) → IsEnded q → IsEnded (seal q)
  unfolding seal drained_locked
  seal-IsEnded q (inl shut) = inl shut
  seal-IsEnded q (inr done) = let (_, z, p) = drained-cases q done in inr (rw (z, p) refl)

  -- An ended queue stays ended, whatever is called on it.
  pub Step-IsEnded : {s t : System T} → Step s t → IsCounted s → IsEnded s.queue → IsEnded t.queue
  unfolding close signal drained_locked
  Step-IsEnded {s} (published x q ok e) c v = rw e (publish-IsEnded x s.queue ok v)
  Step-IsEnded {s} (sealed e) c v = rw e (seal-IsEnded s.queue v)
  Step-IsEnded (closed e) c v = rw e (inl refl)
  Step-IsEnded (signalled m z e) c v = rw e v
  Step-IsEnded {s} (took pre post it q w g e) c v =
      let (first, rest, p, bumped, left) = receive-got s.queue g in
      elim v [
        | inl shut ↦ rw (e, left) (inl shut)
        | inr done ↦ let (_, _, nothing) = drained-cases s.queue done in absurd (cc (nothing, p))
      ]
  Step-IsEnded (ended pre post w g e) c v = rw e v
  Step-IsEnded (parked pre post w g e) c v = rw e v
  Step-IsEnded (woken pre post w k e) c v = rw e v
  Step-IsEnded (delivered pre post it w e) c v = rw e v
  Step-IsEnded (wait_cancelled pre post w e) c v = rw e v
  Step-IsEnded (send_cancelled pre post it w e) c v = rw e v
  Step-IsEnded {s} (finalized a i e) c v = rw e (finalize_handle-IsEnded a i s c v)

  pub Next-cases :
      (n : Next T) → ((it : Item T) × (q : Queue T) × (n ≡ got it q)) ⊎ (n ≡ finish) ⊎ (n ≡ wait)
  Next-cases (got it q) = inl (it, q, refl)
  Next-cases finish = inr (inl refl)
  Next-cases wait = inr (inr refl)
