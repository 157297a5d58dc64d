-- ===== src/Memq/Conservation.antt =====
-- No published payload disappears from a memq queue (queue/memq/memq.go).
use mathlib.Core.List.{Perm, perm_middle, map-append}
use mathlib.Core.List.Perm
use gojob.Prelude.{
  ℕ, zero, suc, ◌≡◌, refl, false, some, [], ◌∷◌, ◌++◌, map, append_assoc, replicate, pull, pull_mid,
  via, arith, Bool-cases, Option-cases, inl, inr,
}
use gojob.Memq.{Final, final_ack, final_nack, final_dead, new, signal, seal, close, finalize}
use gojob.Memq.Handles.{finalize_missing, finalize_fired, finalize_fresh, first_call}
use gojob.Memq.Places.{
  carried, open_items, waiting_payloads, places, carried-append, open_items-append, open_items-fire,
  receive-got, publish-ok,
}
use gojob.Memq.System.{
  checking, Handle, System, start, get_handle, fire, finalize_handle, Step, published, sealed,
  closed, signalled, took, ended, parked, woken, delivered, wait_cancelled, send_cancelled,
  finalized, Reach, here, next,
}

module _ {ℓ} {T : Type ℓ} where
  -- The payload of a handle that is open, taken out of its place.
  released :
      (s : System T) (i : ℕ) {h : Handle T}
      → get_handle s.handles i ≡ some h
      → h.fired ≡ false
      → Perm (places s) (
          h.item.payload
          ∷ (waiting_payloads s
              ++ (carried s.receivers
                  ++ (open_items (fire s.handles i) ++ (s.queue.dead ++ (s.acked ++ s.lost))))))
  released s i {h} e f =
      let x = h.item.payload in
      pull x (waiting_payloads s) _ _
        (pull x (carried s.receivers) _ _ (Perm.append_right _ (open_items-fire s.handles i e f)))

  first_call-places :
      (a : Final) (i : ℕ) (s : System T) {h : Handle T}
      → get_handle s.handles i ≡ some h
      → h.fired ≡ false
      → Perm (places s) (places (first_call a i h s))
  unfolding first_call finalize
  first_call-places final_ack i s {h} e f =
      let x = h.item.payload in
      via _ (released s i e f) (
        pull x (waiting_payloads s) _ _ (
          pull x (carried s.receivers) _ _ (
            pull x (open_items (fire s.handles i)) _ _
              (perm_middle s.queue.dead (s.acked ++ s.lost)))))
  first_call-places final_nack i s {h} e f =
      let x = h.item.payload in
      via _ (released s i e f) (
        rw (map-append, append_assoc (waiting_payloads s) (x ∷ []) _)
          (perm_middle (waiting_payloads s) _))
  first_call-places final_dead i s {h} e f =
      let x = h.item.payload in
      via _ (released s i e f) (
        rw (append_assoc s.queue.dead (x ∷ []) (s.acked ++ s.lost)) (
          pull x (waiting_payloads s) _ _ (
            pull x (carried s.receivers) _ _ (
              pull x (open_items (fire s.handles i)) _ _
                (perm_middle s.queue.dead (s.acked ++ s.lost))))))

  finalize_handle-places :
      (a : Final) (i : ℕ) (s : System T) → Perm (places s) (places (finalize_handle a i s))
  finalize_handle-places a i s = elim (Option-cases (get_handle s.handles i)) [
    | inl missing ↦ rw (finalize_missing a i s missing) (Perm.refl _)
    | inr (h, e) ↦ elim (Bool-cases h.fired) [
      | inl used ↦ rw (finalize_fired a i s e used) (Perm.refl _)
      | inr fresh ↦ rw (finalize_fresh a i s e fresh) (first_call-places a i s e fresh)
    ]
  ]

  finalize_handle-published :
      (a : Final) (i : ℕ) (s : System T) → (finalize_handle a i s).published ≡ s.published
  unfolding finalize_handle
  finalize_handle-published a i s = ground arith

  abbrev Balanced : System T → Type ℓ
  Balanced s = Perm s.published (places s)

  Step-Balanced : {s t : System T} → Step s t → Balanced s → Balanced t
  unfolding carried open_items
  Step-Balanced {s} (published x q ok e) b =
      rw (e, publish-ok x s.queue ok, map-append, append_assoc (waiting_payloads s) (x ∷ []) _)
        (via _ (Perm.cons x b) (perm_middle (waiting_payloads s) _))
  Step-Balanced {s} (sealed e) b = rw e (unfold seal in b)
  Step-Balanced {s} (closed e) b = rw e (unfold close in b)
  Step-Balanced {s} (signalled n z e) b = rw e (unfold signal in b)
  Step-Balanced {s} (took pre post it q w g e) b =
      let (first, rest, p, bumped, left) = receive-got s.queue g in
      rw (e, left, bumped)
        (Perm.trans b (
          rw (w, p, carried-append, carried-append)
            (Perm.symm (
              pull first.payload (map (λ it. it.payload) rest) _ _
                (pull_mid first.payload (carried pre) (carried post) _)))))
  Step-Balanced {s} (ended pre post w g e) b =
      rw e (Perm.trans b (rw (w, carried-append, carried-append) (Perm.refl _)))
  Step-Balanced {s} (parked pre post w g e) b =
      rw e (Perm.trans b (rw (w, carried-append, carried-append) (Perm.refl _)))
  Step-Balanced {s} (woken pre post w k e) b =
      rw e (Perm.trans b (rw (w, carried-append, carried-append) (Perm.refl _)))
  Step-Balanced {s} (delivered pre post it w e) b =
      let x = it.payload in
      rw e (
        Perm.trans b (
          rw
            (
              w,
              carried-append,
              carried-append,
              open_items-append,
              append_assoc (open_items s.handles) (x ∷ []) _,
            )
            (via _ (pull x (waiting_payloads s) _ _ (pull_mid x (carried pre) (carried post) _)) (
              pull x (waiting_payloads s) _ _ (
                pull x (carried pre ++ carried post) _ _ (perm_middle (open_items s.handles) _))))))
  Step-Balanced {s} (wait_cancelled pre post w e) b =
      rw e (Perm.trans b (rw (w, carried-append, carried-append) (Perm.refl _)))
  Step-Balanced {s} (send_cancelled pre post it w e) b =
      let x = it.payload in
      rw e (
        Perm.trans b (
          rw (w, carried-append, carried-append)
            (via _ (pull x (waiting_payloads s) _ _ (pull_mid x (carried pre) (carried post) _)) (
              pull x (waiting_payloads s) _ _ (
                pull x (carried pre ++ carried post) _ _ (
                  pull x (open_items s.handles) _ _
                    (pull x s.queue.dead _ _ (perm_middle s.acked s.lost))))))))
  Step-Balanced {s} (finalized a i e) b =
      rw e (rw finalize_handle-published (Perm.trans b (finalize_handle-places a i s)))

  carried-replicate : (n : ℕ) → carried {T = T} (replicate n checking) ≡ []
  unfolding carried
  carried-replicate zero = refl
  carried-replicate (suc n) = carried-replicate n

  -- Whatever the callers, the goroutines of Receive and the cancellations do, and in whatever order,
  -- each published payload is in exactly one place, as often as it was published: pending, held by a
  -- Receive, in a delivered message that is not finalized, dead-lettered, acknowledged, or dropped by
  -- a Receive that was cancelled while it held it.
  pub Reach-places : (n : ℕ) {s : System T} → Reach (start n) s → Perm s.published (places s)
  Reach-places n here = unfold start new open_items in rw carried-replicate (Perm.refl [])
  Reach-places n (next r st) = Step-Balanced st (Reach-places n r)
