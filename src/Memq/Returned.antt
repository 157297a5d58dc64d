-- ===== src/Memq/Returned.antt =====
-- Why a goroutine of Receive has returned (queue/memq/memq.go).
use gojob.Prelude.{ℕ, ◌≡◌, refl, true, false, List, ◌∷◌, ◌++◌, All, All-swap, All-map_to, arith}
use gojob.Memq.{Queue, Final}
use gojob.Memq.Ended.{IsEnded, receive-IsEnded, Step-IsEnded}
use gojob.Memq.Outstanding.{IsCounted}
use gojob.Memq.System.{
  System, Receiver, checking, waiting, holding, returned, finalize_handle, Step, published, sealed,
  closed, signalled, took, ended, parked, woken, delivered, wait_cancelled, send_cancelled,
  finalized,
}

module _ {ℓ} {T : Type ℓ} where
  -- The step is not one that ctx causes.
  abbrev pub IsAlive : {s t : System T} → Step s t → Type 0
  IsAlive (wait_cancelled pre post w e) = true ≡ false
  IsAlive (send_cancelled pre post it w e) = true ≡ false
  IsAlive _ = Unit

  -- The goroutine has returned only where the queue has ended.
  abbrev pub ReturnedEnded : Queue T → Receiver T → Type ℓ
  ReturnedEnded q r = r ≡ returned → IsEnded q

  finalize_handle-receivers :
      (a : Final) (i : ℕ) (s : System T) → (finalize_handle a i s).receivers ≡ s.receivers
  unfolding finalize_handle
  finalize_handle-receivers a i s = ground arith

  -- The receiver in the middle goes on.
  goes_on :
      (s : System T) (q : Queue T) (pre post : List (Receiver T)) (w w' : Receiver T)
      → s.receivers ≡ pre ++ w ∷ post
      → (IsEnded s.queue → IsEnded q)
      → (w' ≡ returned → IsEnded q)
      → All (ReturnedEnded s.queue) s.receivers
      → All (ReturnedEnded q) (pre ++ w' ∷ post)
  goes_on s q pre post w w' e onward f v =
      let kept : All (ReturnedEnded q) s.receivers =
        All-map_to (ReturnedEnded s.queue) (ReturnedEnded q) s.receivers (λ r g h. onward (g h))
          v in
      All-swap (ReturnedEnded q) pre post w w' (rw e at kept) f

  all_go_on :
      (s : System T) (q : Queue T)
      → (IsEnded s.queue → IsEnded q)
      → All (ReturnedEnded s.queue) s.receivers
      → All (ReturnedEnded q) s.receivers
  all_go_on s q onward v =
      All-map_to (ReturnedEnded s.queue) (ReturnedEnded q) s.receivers (λ r g h. onward (g h)) v

  pub Step-returned :
      {s t : System T} (st : Step s t)
      → IsAlive st
      → IsCounted s
      → All (ReturnedEnded s.queue) s.receivers
      → All (ReturnedEnded t.queue) t.receivers
  Step-returned {s} {t} (published x q ok e) a c v =
      let same : t.receivers ≡ s.receivers = rw e refl in
      rw same (all_go_on s t.queue (Step-IsEnded (published x q ok e) c) v)
  Step-returned {s} {t} (sealed e) a c v =
      let same : t.receivers ≡ s.receivers = rw e refl in
      rw same (all_go_on s t.queue (Step-IsEnded (sealed e) c) v)
  Step-returned {s} {t} (closed e) a c v =
      let same : t.receivers ≡ s.receivers = rw e refl in
      rw same (all_go_on s t.queue (Step-IsEnded (closed e) c) v)
  Step-returned {s} {t} (signalled m z e) a c v =
      let same : t.receivers ≡ s.receivers = rw e refl in
      rw same (all_go_on s t.queue (Step-IsEnded (signalled m z e) c) v)
  Step-returned {s} {t} (took pre post it q w g e) a c v =
      let same : t.receivers ≡ pre ++ (holding it) ∷ post = rw e refl in
      rw same (
        goes_on s t.queue pre post checking (holding it) w
          (Step-IsEnded (took pre post it q w g e) c) (λ x. cc) v)
  Step-returned {s} {t} (ended pre post w g e) a c v =
      let same : t.receivers ≡ pre ++ returned ∷ post = rw e refl in
      rw same (
        goes_on s t.queue pre post checking returned w (Step-IsEnded (ended pre post w g e) c)
          (λ x. Step-IsEnded (ended pre post w g e) c (receive-IsEnded s.queue g)) v)
  Step-returned {s} {t} (parked pre post w g e) a c v =
      let same : t.receivers ≡ pre ++ waiting ∷ post = rw e refl in
      rw same (
        goes_on s t.queue pre post checking waiting w (Step-IsEnded (parked pre post w g e) c)
          (λ x. cc) v)
  Step-returned {s} {t} (woken pre post w k e) a c v =
      let same : t.receivers ≡ pre ++ checking ∷ post = rw e refl in
      rw same (
        goes_on s t.queue pre post waiting checking w (Step-IsEnded (woken pre post w k e) c)
          (λ x. cc) v)
  Step-returned {s} {t} (delivered pre post it w e) a c v =
      let same : t.receivers ≡ pre ++ checking ∷ post = rw e refl in
      rw same (
        goes_on s t.queue pre post (holding it) checking w
          (Step-IsEnded (delivered pre post it w e) c) (λ x. cc) v)
  Step-returned (wait_cancelled pre post w e) a c v = cc
  Step-returned (send_cancelled pre post it w e) a c v = cc
  Step-returned {s} {t} (finalized b i e) a c v =
      let same : t.receivers ≡ s.receivers = rw e (finalize_handle-receivers b i s) in
      rw same (all_go_on s t.queue (Step-IsEnded (finalized b i e) c) v)
