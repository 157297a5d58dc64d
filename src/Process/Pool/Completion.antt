-- ===== src/Process/Pool/Completion.antt =====
-- What the closed output of the pool means, and that the pool gets there (process.go).
use mathlib.Core.List.{Perm}
use gojob.Prelude.{
  ◌≡◌, refl, ap, ◌∙◌, true, false, List, [], ◌∷◌, ◌++◌, All, ℕ, zero, suc, ◌+◌, ◌≤◌, ◌<◌, pos_part,
  length, length-append, length-replicate, replicate, arith, append-nil,
}
use gojob.Options.{Config}
use gojob.Options.Valid.{IsValid}
use gojob.Task.{Result}
use gojob.Process.Pool.{
  Worker, idle, running, offering, gone, Pool, start, Step, take, finish, deliver, drop, drained,
  stop, cancel, close, Reach, here, next, IsGone,
}
use gojob.Process.Pool.Accounting.{flight, delivered, Reach-content}

pub gone_count {ℓ κ} : {In : Type ℓ} {Out : Type κ} → List (Worker In Out) → ℕ
gone_count [] = 0
gone_count (gone ∷ ws) = suc (gone_count ws)
gone_count (_ ∷ ws) = gone_count ws

module _ {ℓ κ} {In : Type ℓ} {Out : Type κ} where
  gone_count-le : (ws : List (Worker In Out)) → gone_count ws ≤ length ws
  unfolding gone_count
  gone_count-le [] = omega arith
  gone_count-le (gone ∷ ws) = omega (arith, gone_count-le ws)
  gone_count-le (_ ∷ ws) = omega (arith, gone_count-le ws)

  gone_count-append :
      (ws vs : List (Worker In Out)) → gone_count (ws ++ vs) ≡ gone_count ws + gone_count vs
  unfolding gone_count
  gone_count-append [] vs = omega arith
  gone_count-append (gone ∷ ws) vs = omega (arith, gone_count-append ws vs)
  gone_count-append (_ ∷ ws) vs = omega (arith, gone_count-append ws vs)

  gone_count-All : (ws : List (Worker In Out)) → All IsGone ws → gone_count ws ≡ length ws
  unfolding gone_count
  gone_count-All [] h = refl
  gone_count-All (gone ∷ ws) h = omega (arith, gone_count-All ws h.1)
  gone_count-All (idle ∷ ws) h = cc h.0
  gone_count-All (running x ∷ ws) h = cc h.0
  gone_count-All (offering x r ∷ ws) h = cc h.0

  flight-nil : (ws : List (Worker In Out)) → gone_count ws ≡ length ws → flight ws ≡ []
  unfolding gone_count flight
  flight-nil [] h = refl
  flight-nil (gone ∷ ws) h = flight-nil ws (omega arith)
  flight-nil (idle ∷ ws) h = absurd (omega (arith, gone_count-le ws))
  flight-nil (running x ∷ ws) h = absurd (omega (arith, gone_count-le ws))
  flight-nil (offering x r ∷ ws) h = absurd (omega (arith, gone_count-le ws))

  flight-le : (ws : List (Worker In Out)) → length (flight ws) ≤ length ws
  unfolding flight
  flight-le [] = omega arith
  flight-le (idle ∷ ws) = omega (arith, flight-le ws)
  flight-le (running x ∷ ws) = omega (arith, flight-le ws)
  flight-le (offering x r ∷ ws) = omega (arith, flight-le ws)
  flight-le (gone ∷ ws) = omega (arith, flight-le ws)

  -- What a worker's place in the list tells of the two counts.
  split_counts :
      (ws pre post : List (Worker In Out)) (w : Worker In Out)
      → ws ≡ pre ++ w ∷ post
      → (length ws ≡ length pre + suc (length post))
        × (gone_count ws ≡ gone_count pre + gone_count (w ∷ post))
  split_counts ws pre post w e = (
    ap length e ∙ length-append pre (w ∷ post),
    ap gone_count e ∙ gone_count-append pre (w ∷ post),
  )

gone_count-replicate {ℓ κ} :
    (In : Type ℓ) (Out : Type κ) (n : ℕ) → gone_count (replicate {A = Worker In Out} n idle) ≡ 0
unfolding gone_count
gone_count-replicate In Out zero = refl
gone_count-replicate In Out (suc n) = gone_count-replicate In Out n

-- The workers, the closed output, and what has not been cancelled.
pub record Inv {ℓ κ} {In : Type ℓ} {Out : Type κ} (n : ℕ) (s : Pool In Out) : Type (ℓ ⊔ κ) where
  pub width : length s.workers ≡ n
  pub none_dropped : s.cancelled ≡ false → s.dropped ≡ []
  pub all_received : s.cancelled ≡ false → 0 < gone_count s.workers → s.input ≡ []
  pub closed_gone : s.out_closed ≡ true → gone_count s.workers ≡ n

module _ {ℓ κ μ} {In : Type ℓ} {Out : Type κ} (Runs : In → Result Out → Type μ) where
  Step-Inv : {s t : Pool In Out} (n : ℕ) → Step Runs s t → Inv n s → Inv n t
  unfolding gone_count
  Step-Inv {s} n (take pre post x rest w i e) v = ground (
    arith,
    split_counts s.workers pre post idle w,
    split_counts (pre ++ running x ∷ post) pre post (running x) refl,
    gone_count-le pre,
    gone_count-le post,
  )
  Step-Inv {s} n (finish pre post x r w h e) v = ground (
    arith,
    split_counts s.workers pre post (running x) w,
    split_counts (pre ++ offering x r ∷ post) pre post (offering x r) refl,
    gone_count-le pre,
    gone_count-le post,
  )
  Step-Inv {s} n (deliver pre post x r w e) v = ground (
    arith,
    split_counts s.workers pre post (offering x r) w,
    split_counts (pre ++ idle ∷ post) pre post idle refl,
    gone_count-le pre,
    gone_count-le post,
  )
  Step-Inv {s} n (drop pre post x r w c e) v = ground (
    arith,
    split_counts s.workers pre post (offering x r) w,
    split_counts (pre ++ gone ∷ post) pre post gone refl,
    gone_count-le pre,
    gone_count-le post,
  )
  Step-Inv {s} n (drained pre post w i e) v = ground (
    arith,
    split_counts s.workers pre post idle w,
    split_counts (pre ++ gone ∷ post) pre post gone refl,
    gone_count-le pre,
    gone_count-le post,
  )
  Step-Inv {s} n (stop pre post w c e) v = ground (
    arith,
    split_counts s.workers pre post idle w,
    split_counts (pre ++ gone ∷ post) pre post gone refl,
    gone_count-le pre,
    gone_count-le post,
  )
  Step-Inv {s} n (cancel c e) v = ground arith
  Step-Inv {s} n (close g c e) v = ground (arith, gone_count-All s.workers g)

  start-Inv :
      (cfg : Config) (items : List In) → Inv (pos_part cfg.workers) (start {Out = Out} cfg items)
  unfolding start
  start-Inv cfg items =
      let none_gone = gone_count-replicate In Out (pos_part cfg.workers) in
      ground (arith, length-replicate {A = Worker In Out} (pos_part cfg.workers) idle)

  pub Reach-Inv :
      (cfg : Config) (items : List In) {s : Pool In Out}
      → Reach Runs (start cfg items) s
      → Inv (pos_part cfg.workers) s
  Reach-Inv cfg items here = start-Inv cfg items
  Reach-Inv cfg items (next r st) = Step-Inv (pos_part cfg.workers) st (Reach-Inv cfg items r)

  -- Without a cancellation, the closed output has carried one result for each item of the input,
  -- as often as the item was given, and for nothing else, in whatever order.
  pub closed_delivers_all :
      (cfg : Config) (items : List In) {s : Pool In Out}
      → IsValid cfg
      → Reach Runs (start cfg items) s
      → s.out_closed ≡ true
      → s.cancelled ≡ false
      → Perm items (delivered s)
  closed_delivers_all cfg items {s} valid r closed live =
      let v = Reach-Inv cfg items r in
      let empty : s.input ≡ [] =
        v.all_received live (omega (arith, v.closed_gone closed, valid.some_worker)) in
      let idle_hands = flight-nil s.workers (omega (arith, v.closed_gone closed, v.width)) in
      rw (v.none_dropped live, idle_hands, empty, append-nil) at (Reach-content Runs cfg items r)

  -- Once the output is closed, no goroutine sends on it, also after a cancellation.
  pub closed_sends_nothing :
      (cfg : Config) (items : List In) {s t : Pool In Out}
      → Reach Runs (start cfg items) s
      → s.out_closed ≡ true
      → Step Runs s t
      → t.sent ≡ s.sent
  unfolding gone_count
  closed_sends_nothing cfg items {s} r closed (deliver pre post x r' w e) =
      let v = Reach-Inv cfg items r in
      absurd (
        omega (
          arith,
          split_counts s.workers pre post (offering x r') w,
          v.closed_gone closed,
          v.width,
          gone_count-le pre,
          gone_count-le post,
        ))
  closed_sends_nothing cfg items r closed (take pre post x rest w i e) = rw e
  closed_sends_nothing cfg items r closed (finish pre post x r' w h e) = rw e
  closed_sends_nothing cfg items r closed (drop pre post x r' w c e) = rw e
  closed_sends_nothing cfg items r closed (drained pre post w i e) = rw e
  closed_sends_nothing cfg items r closed (stop pre post w c e) = rw e
  closed_sends_nothing cfg items r closed (cancel c e) = rw e
  closed_sends_nothing cfg items r closed (close g c e) = rw e

  -- No more items are in work at once than the configured number of workers.
  pub flight_bounded :
      (cfg : Config) (items : List In) {s : Pool In Out}
      → Reach Runs (start cfg items) s
      → length (flight s.workers) ≤ pos_part cfg.workers
  flight_bounded cfg items {s} r = omega (arith, Reach-Inv cfg items r, flight-le s.workers)
