-- ===== src/Process/Pool/Accounting.antt =====
-- No item is lost or doubled by the pool, at any number of workers and in any order of the
-- goroutines (process.go).
use mathlib.Core.List.{Perm, perm_middle, map-append}
use mathlib.Core.List.Perm
use gojob.Prelude.{
  ◌≡◌, refl, ap, List, [], ◌∷◌, ◌++◌, map, append_assoc, pull, pull_mid, via, pos_part, ℕ, zero,
  suc, replicate,
}
use gojob.Options.{Config}
use gojob.Task.{Result}
use gojob.Process.Pool.{
  Worker, idle, running, offering, gone, Pool, start, Step, take, finish, deliver, drop, drained,
  stop, cancel, close, Reach, here, next,
}

-- The items that the workers hold.
unfoldable pub flight {ℓ κ} : {In : Type ℓ} {Out : Type κ} → List (Worker In Out) → List In
flight [] = []
flight (idle ∷ ws) = flight ws
flight (running x ∷ ws) = x ∷ flight ws
flight (offering x r ∷ ws) = x ∷ flight ws
flight (gone ∷ ws) = flight ws

abbrev pub delivered {ℓ κ} : {In : Type ℓ} {Out : Type κ} → Pool In Out → List In
delivered s = map (λ p. p.0) s.sent

-- Every place where an item may be.
abbrev pub content {ℓ κ} : {In : Type ℓ} {Out : Type κ} → Pool In Out → List In
content s = delivered s ++ (s.dropped ++ (flight s.workers ++ s.input))

flight-append {ℓ κ} :
    {In : Type ℓ} {Out : Type κ} (ws vs : List (Worker In Out))
    → flight (ws ++ vs) ≡ flight ws ++ flight vs
unfolding flight
flight-append [] vs = refl
flight-append (idle ∷ ws) vs = flight-append ws vs
flight-append (running x ∷ ws) vs = ap (λ l. x ∷ l) (flight-append ws vs)
flight-append (offering x r ∷ ws) vs = ap (λ l. x ∷ l) (flight-append ws vs)
flight-append (gone ∷ ws) vs = flight-append ws vs

flight-replicate {ℓ κ} :
    {In : Type ℓ} (Out : Type κ) (n : ℕ) → flight (replicate {A = Worker In Out} n idle) ≡ []
unfolding flight
flight-replicate Out zero = refl
flight-replicate Out (suc n) = flight-replicate Out n

module _ {ℓ κ μ} {In : Type ℓ} {Out : Type κ} (Runs : In → Result Out → Type μ) where
  Step-content : {s t : Pool In Out} → Step Runs s t → Perm (content s) (content t)
  unfolding flight
  Step-content {s} (take pre post x rest w i e) =
      rw (e, w, i, flight-append, flight-append)
        (Perm.append_left (delivered s) (
          Perm.append_left s.dropped (
            via _ (perm_middle (flight pre ++ flight post) rest)
              (pull_mid x (flight pre) (flight post) rest))))
  Step-content {s} (finish pre post x r w h e) =
      rw (e, w, flight-append, flight-append) (Perm.refl _)
  Step-content {s} (deliver pre post x r w e) =
      rw (e, w, flight-append, flight-append)
        (rw (map-append, append_assoc (delivered s) (x ∷ []) _)
          (Perm.append_left (delivered s)
            (pull x s.dropped _ _ (pull_mid x (flight pre) (flight post) s.input))))
  Step-content {s} (drop pre post x r w c e) =
      rw (e, w, flight-append, flight-append)
        (Perm.append_left (delivered s)
          (pull x s.dropped _ _ (pull_mid x (flight pre) (flight post) s.input)))
  Step-content {s} (drained pre post w i e) = rw (e, w, flight-append, flight-append) (Perm.refl _)
  Step-content {s} (stop pre post w c e) = rw (e, w, flight-append, flight-append) (Perm.refl _)
  Step-content {s} (cancel c e) = rw e (Perm.refl _)
  Step-content {s} (close g c e) = rw e (Perm.refl _)

  start-content : (cfg : Config) (items : List In) → content (start {Out = Out} cfg items) ≡ items
  unfolding start
  start-content cfg items = rw (flight-replicate Out (pos_part cfg.workers))

  Reach-content_from : {s t : Pool In Out} → Reach Runs s t → Perm (content s) (content t)
  Reach-content_from here = Perm.refl _
  Reach-content_from (next r st) = Perm.trans (Reach-content_from r) (Step-content st)

  -- At every moment of every run, cancelled or not, each item of the input is in exactly one place,
  -- as often as it was given: delivered with its result, discarded by a cancelled worker, held by
  -- a worker, or not yet received.
  pub Reach-content :
      (cfg : Config) (items : List In) {s : Pool In Out}
      → Reach Runs (start cfg items) s
      → Perm items (content s)
  Reach-content cfg items r = rw (start-content cfg items) at (Reach-content_from r)
