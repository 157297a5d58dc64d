-- ===== src/Service/Progress.antt =====
-- The steps of Consume on an in-memory queue, and where its workers and its loop may stand
-- (queue/consume.go, process.go).
use gojob.Prelude.{
  ℕ, zero, suc, ◌≤◌, ◌≡◌, ◌⊎◌, inl, inr, refl, ap, true, false, List, [], ◌∷◌, ◌++◌, All, length,
  arith,
}
use gojob.Memq.System.{System, Receiver, waiting, returned, published, sealed, closed}
use gojob.Process.Pool.{Worker, idle, running, offering, gone, IsGone}
use gojob.Queue.Consume.{Config, Outcome}
use gojob.Service.{
  Ticket, Loop, ready, handling, emitting, left, crashed, Service, Step, queue_step, cancel,
}
use gojob.Service.Exact.{GoneBack}
use gojob.Service.Owned.{tickets}
use gojob.Task.{Result}

pub zero_cases : (n : ℕ) → (n ≡ 0) ⊎ ((m : ℕ) × (n ≡ suc m))
zero_cases zero = inl refl
zero_cases (suc m) = inr (m, refl)

module _ {ℓ μ} {T : Type ℓ} {Out : Type μ} where
  -- A step of the program itself, and not one of its callers: Publish, Seal, Close, or a cancelled
  -- ctx.
  abbrev pub IsInternal : {cfg : Config} {s t : Service T Out} → Step cfg s t → Type 0
  IsInternal (queue_step q (published x k ok f) own e) = true ≡ false
  IsInternal (queue_step q (sealed f) own e) = true ≡ false
  IsInternal (queue_step q (closed f) own e) = true ≡ false
  IsInternal (cancel c e) = true ≡ false
  IsInternal _ = Unit

  -- Everything waits for the callers: the queue is neither sealed nor closed, it is empty, and no
  -- message is in the hands of Consume.
  pub record IsWaiting (s : Service T Out) : Type (ℓ ⊔ μ) where
    pub receiver : s.memq.receivers ≡ waiting ∷ []
    pub unsealed : s.memq.queue.is_sealed ≡ false
    pub unclosed : s.memq.queue.is_closed ≡ false
    pub empty : s.memq.queue.pending ≡ []
    pub none_outstanding : s.memq.queue.outstanding ≡ 0

  abbrev pub IsResting : Worker (Ticket T) (Outcome (System T) T Out) → Type (ℓ ⊔ μ)
  IsResting w = (w ≡ idle) ⊎ (w ≡ gone)

  abbrev Splits :
      List (Worker (Ticket T) (Outcome (System T) T Out))
      → Worker (Ticket T) (Outcome (System T) T Out)
      → Type (ℓ ⊔ μ)
  Splits ws w =
      (before : List (Worker (Ticket T) (Outcome (System T) T Out))) × (behind : List
        (Worker (Ticket T) (Outcome (System T) T Out)))
      × (ws ≡ before ++ w ∷ behind)

  Splits-cons :
      (v w : Worker (Ticket T) (Outcome (System T) T Out))
      (ws : List (Worker (Ticket T) (Outcome (System T) T Out)))
      → Splits ws w
      → Splits (v ∷ ws) w
  Splits-cons v w ws (before, behind, e) = (v ∷ before, behind, ap (λ l. v ∷ l) e)

  -- A worker is in runOne, or has a result to send, or all of them rest.
  pub busy_cases :
      (ws : List (Worker (Ticket T) (Outcome (System T) T Out)))
      → ((x : Ticket T) × Splits ws (running x))
        ⊎ ((x : Ticket T) × (r : Result (Outcome (System T) T Out)) × Splits ws (offering x r))
        ⊎ All IsResting ws
  busy_cases [] = inr (inr tt)
  busy_cases (running x ∷ ws) = inl (x, ([], ws, refl))
  busy_cases (offering x r ∷ ws) = inr (inl (x, r, ([], ws, refl)))
  busy_cases (idle ∷ ws) = elim (busy_cases ws) [
    | inl (x, p) ↦ inl (x, Splits-cons idle _ ws p)
    | inr (inl (x, r, p)) ↦ inr (inl (x, r, Splits-cons idle _ ws p))
    | inr (inr rest) ↦ inr (inr (inl refl, rest))
  ]
  busy_cases (gone ∷ ws) = elim (busy_cases ws) [
    | inl (x, p) ↦ inl (x, Splits-cons gone _ ws p)
    | inr (inl (x, r, p)) ↦ inr (inl (x, r, Splits-cons gone _ ws p))
    | inr (inr rest) ↦ inr (inr (inr refl, rest))
  ]

  pub resting_cases :
      (ws : List (Worker (Ticket T) (Outcome (System T) T Out)))
      → All IsResting ws
      → Splits ws idle ⊎ All IsGone ws
  resting_cases [] rest = inr tt
  resting_cases (w ∷ ws) (inl e, rest) = inl ([], ws, ap (λ v. v ∷ ws) e)
  resting_cases (w ∷ ws) (inr e, rest) = elim (resting_cases ws rest) [
    | inl p ↦ inl (Splits-cons w idle ws p)
    | inr all ↦ inr (e, all)
  ]

  -- Workers that rest hold nothing.
  pub resting-tickets :
      (ws : List (Worker (Ticket T) (Outcome (System T) T Out)))
      → All IsResting ws
      → tickets ws ≡ []
  resting-tickets [] rest = refl
  resting-tickets (w ∷ ws) (inl e, rest) = rw e (resting-tickets ws rest)
  resting-tickets (w ∷ ws) (inr e, rest) = rw e (resting-tickets ws rest)

  -- A worker that is gone, among some, tells that Receive has returned.
  pub all_back :
      {rs : List (Receiver T)} (ws : List (Worker (Ticket T) (Outcome (System T) T Out)))
      → 1 ≤ length ws
      → All IsGone ws
      → All (GoneBack rs) ws
      → rs ≡ returned ∷ []
  all_back [] some_worker all back = absurd (omega arith)
  all_back (w ∷ ws) some_worker (e, _) (b, _) = b e

  pub Loop-cases :
      (l : Loop T Out)
      → (l ≡ ready)
        ⊎ ((x : Ticket T) × (r : Result (Outcome (System T) T Out)) × (l ≡ handling x r))
        ⊎ ((x : Ticket T) × (r : Result Out) × (l ≡ emitting x r))
        ⊎ (l ≡ left)
        ⊎ (l ≡ crashed)
  Loop-cases ready = inl refl
  Loop-cases (handling x r) = inr (inl (x, r, refl))
  Loop-cases (emitting x r) = inr (inr (inl (x, r, refl)))
  Loop-cases left = inr (inr (inr (inl refl)))
  Loop-cases crashed = inr (inr (inr (inr refl)))
