-- ===== src/Process/Pool/Results.antt =====
-- Every result that the pool delivers is one that runOne returns for its item (process.go).
use gojob.Prelude.{
  ◌≡◌, List, [], ◌∷◌, ◌++◌, All, All-append, All-split, ℕ, zero, suc, replicate, pos_part,
}
use gojob.Options.{Config}
use gojob.Task.{Result}
use gojob.Process.Pool.{
  Worker, idle, running, offering, gone, Pool, start, Step, take, finish, deliver, drop, drained,
  stop, cancel, close, Reach, here, next,
}

module _ {ℓ κ μ} {In : Type ℓ} {Out : Type κ} (Runs : In → Result Out → Type μ) where
  -- The result that a worker offers is one of its item.
  abbrev Holds : Worker In Out → Type μ
  Holds (offering x r) = Runs x r
  Holds _ = Unit

  abbrev pub Justified : Pool In Out → Type μ
  Justified s = All (λ p. Runs p.0 p.1) s.sent × All Holds s.workers

  Holds-swap :
      (pre post : List (Worker In Out)) (w v : Worker In Out) (ws : List (Worker In Out))
      → ws ≡ pre ++ w ∷ post
      → Holds v
      → All Holds ws
      → All Holds (pre ++ v ∷ post)
  Holds-swap pre post w v ws e hv h =
      let (hpre, hpost) = All-split Holds pre (w ∷ post) (rw e at h) in
      All-append Holds pre (v ∷ post) hpre (hv, hpost.1)

  Holds-at :
      (pre post : List (Worker In Out)) (w : Worker In Out) (ws : List (Worker In Out))
      → ws ≡ pre ++ w ∷ post
      → All Holds ws
      → Holds w
  Holds-at pre post w ws e h = (All-split Holds pre (w ∷ post) (rw e at h)).1.0

  Step-Justified : {s t : Pool In Out} → Step Runs s t → Justified s → Justified t
  Step-Justified {s} (take pre post x rest w i e) (a, b) =
      rw e (a, Holds-swap pre post idle (running x) s.workers w tt b)
  Step-Justified {s} (finish pre post x r w h e) (a, b) =
      rw e (a, Holds-swap pre post (running x) (offering x r) s.workers w h b)
  Step-Justified {s} (deliver pre post x r w e) (a, b) = rw e (
    All-append _ s.sent ((x, r) ∷ []) a (Holds-at pre post (offering x r) s.workers w b, tt),
    Holds-swap pre post (offering x r) idle s.workers w tt b,
  )
  Step-Justified {s} (drop pre post x r w c e) (a, b) =
      rw e (a, Holds-swap pre post (offering x r) gone s.workers w tt b)
  Step-Justified {s} (drained pre post w i e) (a, b) =
      rw e (a, Holds-swap pre post idle gone s.workers w tt b)
  Step-Justified {s} (stop pre post w c e) (a, b) =
      rw e (a, Holds-swap pre post idle gone s.workers w tt b)
  Step-Justified (cancel c e) h = rw e h
  Step-Justified (close g c e) h = rw e h

  Holds-replicate : (n : ℕ) → All Holds (replicate n idle)
  Holds-replicate zero = tt
  Holds-replicate (suc n) = (tt, Holds-replicate n)

  Reach-Justified :
      (cfg : Config) (items : List In) {s : Pool In Out}
      → Reach Runs (start cfg items) s
      → Justified s
  Reach-Justified cfg items here = unfold start in (tt, Holds-replicate (pos_part cfg.workers))
  Reach-Justified cfg items (next r st) = Step-Justified st (Reach-Justified cfg items r)

  -- A delivered result stands beside the item that it was computed from, also when the workers
  -- overtake one another: it is one that runOne returns for that item.
  pub sent_are_runs :
      (cfg : Config) (items : List In) {s : Pool In Out}
      → Reach Runs (start cfg items) s
      → All (λ p. Runs p.0 p.1) s.sent
  sent_are_runs cfg items r = (Reach-Justified cfg items r).0
