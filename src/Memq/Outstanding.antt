-- ===== src/Memq/Outstanding.antt =====
-- What `outstanding` counts, and what a drained memq queue means (queue/memq/memq.go).
use gojob.Prelude.{
  ℕ, zero, suc, ◌+◌, ◌≡◌, refl, ap, ◌∙◌, true, false, some, List, [], ◌∷◌, ◌++◌, length,
  length-append, arith, Bool-cases, Option-cases, inl, inr,
}
use gojob.Memq.{Final, final_ack, final_nack, final_dead, signal, seal, close, finalize}
use gojob.Memq.Handles.{finalize_missing, finalize_fired, finalize_fresh, first_call}
use gojob.Memq.Places.{
  carried, open_items, carried-append, open_items-append, open_used, open_fresh, receive-got,
  publish-ok,
}
use gojob.Memq.System.{
  Receiver, checking, waiting, holding, returned, Handle, System, get_handle, fire, finalize_handle,
  Step, published, sealed, closed, signalled, took, ended, parked, woken, delivered, wait_cancelled,
  send_cancelled, finalized,
}

module _ {ℓ} {T : Type ℓ} where
  -- Pending, held, delivered and not finalized, or dropped.
  abbrev pub IsCounted : System T → Type 0
  IsCounted s =
      s.queue.outstanding
      ≡ length s.queue.pending
        + length (carried s.receivers)
        + length (open_items s.handles)
        + length s.lost

  carried_split :
      (rs pre post : List (Receiver T)) (r : Receiver T)
      → rs ≡ pre ++ r ∷ post
      → length (carried rs) ≡ length (carried pre) + length (carried (r ∷ post))
  carried_split rs pre post r e =
      ap (λ l. length (carried l)) e
      ∙ ap length (carried-append pre (r ∷ post))
      ∙ length-append (carried pre) (carried (r ∷ post))

  pub open_count-fire :
      (hs : List (Handle T)) (i : ℕ) {h : Handle T}
      → get_handle hs i ≡ some h
      → h.fired ≡ false
      → length (open_items hs) ≡ suc (length (open_items (fire hs i)))
  open_count-fire [] i e f = cc
  open_count-fire (k ∷ hs) zero {h} e f =
      let same : k ≡ h = cc in
      rw (same, open_fresh h hs f, open_used (record h { fired = true }) hs refl)
  open_count-fire (k ∷ hs) (suc i) e f =
      let ih = open_count-fire hs i e f in
      elim (Bool-cases k.fired) [
        | inl used ↦ rw (open_used k hs used, open_used k (fire hs i) used) ih
        | inr fresh ↦ rw (open_fresh k hs fresh, open_fresh k (fire hs i) fresh) (ap suc ih)
      ]

  first_call-IsCounted :
      (a : Final) (i : ℕ) (s : System T) {h : Handle T}
      → get_handle s.handles i ≡ some h
      → h.fired ≡ false
      → IsCounted s
      → IsCounted (first_call a i h s)
  unfolding first_call finalize
  first_call-IsCounted final_ack i s e f c = omega (arith, open_count-fire s.handles i e f, c)
  first_call-IsCounted final_dead i s e f c = omega (arith, open_count-fire s.handles i e f, c)
  first_call-IsCounted final_nack i s {h} e f c =
      omega (arith, open_count-fire s.handles i e f, c, length-append s.queue.pending (h.item ∷ []))

  finalize_handle-IsCounted :
      (a : Final) (i : ℕ) (s : System T) → IsCounted s → IsCounted (finalize_handle a i s)
  finalize_handle-IsCounted a i s c = elim (Option-cases (get_handle s.handles i)) [
    | inl missing ↦ rw (finalize_missing a i s missing) c
    | inr (h, e) ↦ elim (Bool-cases h.fired) [
      | inl used ↦ rw (finalize_fired a i s e used) c
      | inr fresh ↦ rw (finalize_fresh a i s e fresh) (first_call-IsCounted a i s e fresh c)
    ]
  ]

  pub Step-IsCounted : {s t : System T} → Step s t → IsCounted s → IsCounted t
  unfolding carried open_items seal close signal
  Step-IsCounted {s} (published x q ok e) c =
      rw (e, publish-ok x s.queue ok)
        (omega
          (arith, c, length-append s.queue.pending (record { payload = x; deliveries = 0 } ∷ [])))
  Step-IsCounted {s} (sealed e) c = rw e c
  Step-IsCounted {s} (closed e) c = rw e c
  Step-IsCounted {s} (signalled n z e) c = rw e c
  Step-IsCounted {s} (took pre post it q w g e) c =
      let (first, rest, p, bumped, left) = receive-got s.queue g in
      rw (e, left, bumped)
        (omega (
          arith,
          c,
          ap length p,
          carried_split s.receivers pre post checking w,
          carried_split _ pre post (holding (record first { deliveries = first.deliveries + 1 }))
              refl,
        ))
  Step-IsCounted {s} (ended pre post w g e) c = rw e (
      omega (
        arith,
        c,
        carried_split s.receivers pre post checking w,
        carried_split _ pre post (returned) refl,
      ))
  Step-IsCounted {s} (parked pre post w g e) c = rw e (
      omega (
        arith,
        c,
        carried_split s.receivers pre post checking w,
        carried_split _ pre post (waiting) refl,
      ))
  Step-IsCounted {s} (woken pre post w k e) c = rw e (
      omega (
        arith,
        c,
        carried_split s.receivers pre post waiting w,
        carried_split _ pre post (checking) refl,
      ))
  Step-IsCounted {s} (delivered pre post it w e) c =
      rw (e, open_items-append)
        (omega (
          arith,
          c,
          carried_split s.receivers pre post (holding it) w,
          carried_split _ pre post (checking) refl,
          length-append (open_items s.handles) (it.payload ∷ []),
        ))
  Step-IsCounted {s} (wait_cancelled pre post w e) c = rw e (
      omega (
        arith,
        c,
        carried_split s.receivers pre post waiting w,
        carried_split _ pre post (returned) refl,
      ))
  Step-IsCounted {s} (send_cancelled pre post it w e) c = rw e (
      omega (
        arith,
        c,
        carried_split s.receivers pre post (holding it) w,
        carried_split _ pre post (returned) refl,
      ))
  Step-IsCounted {s} (finalized a i e) c = rw e (finalize_handle-IsCounted a i s c)
