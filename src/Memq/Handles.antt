-- ===== src/Memq/Handles.antt =====
-- Each delivered message is finalized at most once (queue/memq/memq.go).
use gojob.Prelude.{
  ℕ, zero, suc, ◌≡◌, refl, true, false, none, some, List, [], ◌∷◌, Bool-cases, Option-cases, inl,
  inr, arith,
}
use gojob.Memq.{Item, Final, final_ack, final_nack, final_dead, finalize}
use gojob.Memq.System.{Handle, System, get_handle, fire, finalize_handle, wrap, record_ack}
use gojob.Queue.Consume.{Action, acked, nacked, dead_lettered, perform}

-- The number that wrap gives to the callback of each call.
unfoldable pub handled_by : Action → Final
handled_by acked = final_ack
handled_by nacked = final_nack
handled_by dead_lettered = final_dead

module _ {ℓ} {T : Type ℓ} where
  get_handle-fire :
      (hs : List (Handle T)) (i : ℕ) {h : Handle T}
      → get_handle hs i ≡ some h
      → get_handle (fire hs i) i ≡ some (record h { fired = true })
  get_handle-fire [] i e = cc
  get_handle-fire (h ∷ hs) zero e = cc
  get_handle-fire (h ∷ hs) (suc i) e = get_handle-fire hs i e

  pub finalize_fired :
      (a : Final) (i : ℕ) (s : System T) {h : Handle T}
      → get_handle s.handles i ≡ some h
      → h.fired ≡ true
      → finalize_handle a i s ≡ s
  unfolding finalize_handle
  finalize_fired a i s e f = ground arith

  pub finalize_missing :
      (a : Final) (i : ℕ) (s : System T) → get_handle s.handles i ≡ none → finalize_handle a i s ≡ s
  unfolding finalize_handle
  finalize_missing a i s e = ground arith

  unfoldable pub first_call : Final → ℕ → Handle T → System T → System T
  first_call a i h s = record s {
    queue = finalize a h.item s.queue;
    handles = fire s.handles i;
    signals = suc s.signals;
    acked = record_ack a h.item s.acked;
  }

  pub finalize_fresh :
      (a : Final) (i : ℕ) (s : System T) {h : Handle T}
      → get_handle s.handles i ≡ some h
      → h.fired ≡ false
      → finalize_handle a i s ≡ first_call a i h s
  unfolding finalize_handle first_call
  finalize_fresh a i s e f = ground arith

  -- The second callback finds the handle used, or still missing.
  finalize_handle_twice :
      (a b : Final) (i : ℕ) (s : System T)
      → finalize_handle b i (finalize_handle a i s) ≡ finalize_handle a i s
  finalize_handle_twice a b i s = elim (Option-cases (get_handle s.handles i)) [
    | inl missing ↦ rw (finalize_missing a i s missing) (finalize_missing b i s missing)
    | inr (h, e) ↦ elim (Bool-cases h.fired) [
      | inl used ↦ rw (finalize_fired a i s e used) (finalize_fired b i s e used)
      | inr fresh ↦ rw (finalize_fresh a i s e fresh) (
          finalize_fired b i (first_call a i h s) {h = record h { fired = true }}
            (unfold first_call in get_handle-fire s.handles i e) refl)
    ]
  ]

  pub perform-wrap :
      (a : Action) (i : ℕ) (it : Item T) (s : System T)
      → perform a (wrap i it) s ≡ finalize_handle (handled_by a) i s
  unfolding perform wrap handled_by
  perform-wrap acked i it s = refl
  perform-wrap nacked i it s = refl
  perform-wrap dead_lettered i it s = refl

  -- Of the calls of Ack, Nack and DeadLetter on one delivered message only the first does anything,
  -- whichever they are: a second one leaves the queue, the dead letters and the signals as they were.
  pub perform_once :
      (a b : Action) (i : ℕ) (it : Item T) (s : System T)
      → perform b (wrap i it) (perform a (wrap i it) s) ≡ perform a (wrap i it) s
  perform_once a b i it s =
      rw (perform-wrap, perform-wrap) (finalize_handle_twice (handled_by a) (handled_by b) i s)
