-- ===== src/Process/Pool.antt =====
-- process.go: the worker pool of Process, as a step relation over the goroutines and channels.
-- One step is one communication, the end of one runOne, or one observation of ctx.Done. The input
-- is what the upstream stage still sends before it closes its channel; the consumer of `out` may
-- receive at any time.
pub mod Accounting
pub mod Completion
pub mod Results
pub mod Termination
pub mod Renamed
pub mod Recovered
use gojob.Prelude.{
  ℕ, ◌≡◌, Bool, true, false, Option, List, [], ◌∷◌, ◌++◌, map, replicate, ℤ, pos_part, All,
}
use gojob.Options.{Config}
use gojob.Task.{Error, Result}
use gojob.Process.{Env, run_one}

-- Where a worker goroutine stands: at the first select, in runOne, at the second select with the
-- result to send, or returned.
pub data Worker {ℓ κ} (In : Type ℓ) (Out : Type κ) : Type (ℓ ⊔ κ) where
  idle : Worker In Out
  running : In → Worker In Out
  offering : In → Result Out → Worker In Out
  gone : Worker In Out

-- `sent` is what the consumer has received, each result beside its item; `dropped` are the items
-- whose results a cancelled worker discards.
pub record Pool {ℓ κ} (In : Type ℓ) (Out : Type κ) : Type (ℓ ⊔ κ) where
  pub input : List In
  pub cancelled : Bool
  pub workers : List (Worker In Out)
  pub sent : List (In × Result Out)
  pub dropped : List In
  pub out_closed : Bool

unfoldable pub start {ℓ κ} : {In : Type ℓ} {Out : Type κ} → Config → List In → Pool In Out
start cfg items = record {
  input = items;
  cancelled = false;
  workers = replicate (pos_part cfg.workers) idle;
  sent = [];
  dropped = [];
  out_closed = false;
}

-- The results that runOne may return for an item, where `fn` says how a call may come out.
abbrev pub RunsOne {ℓ κ μ} :
    {In : Type ℓ} {Out : Type κ}
    → (In → Out × Option Error → Type μ)
    → Config
    → In
    → Result Out
    → Type (κ ⊔ μ)
RunsOne {Out} fn cfg x r = (env : Env Out) × ((n : ℕ) → fn x (env.call n)) × (r ≡ run_one cfg env)

abbrev pub IsGone {ℓ κ} : {In : Type ℓ} {Out : Type κ} → Worker In Out → Type (ℓ ⊔ κ)
IsGone w = w ≡ gone

module _ {ℓ κ μ} {In : Type ℓ} {Out : Type κ} (Runs : In → Result Out → Type μ) where
  pub data Step (s t : Pool In Out) : Type (ℓ ⊔ κ ⊔ μ) where
    -- `case input, ok := <-in` with an item.
    take :
        (pre post : List (Worker In Out)) (x : In) (rest : List In)
        → s.workers ≡ pre ++ idle ∷ post
        → s.input ≡ x ∷ rest
        → t ≡ record s { workers = pre ++ running x ∷ post; input = rest }
        → Step s t
    -- runOne returns.
    finish :
        (pre post : List (Worker In Out)) (x : In) (r : Result Out)
        → s.workers ≡ pre ++ running x ∷ post
        → Runs x r
        → t ≡ record s { workers = pre ++ offering x r ∷ post }
        → Step s t
    -- `case out <- r`.
    deliver :
        (pre post : List (Worker In Out)) (x : In) (r : Result Out)
        → s.workers ≡ pre ++ offering x r ∷ post
        → t ≡ record s { workers = pre ++ idle ∷ post; sent = s.sent ++ (x, r) ∷ [] }
        → Step s t
    -- `case <-ctx.Done(): return` of the second select.
    drop :
        (pre post : List (Worker In Out)) (x : In) (r : Result Out)
        → s.workers ≡ pre ++ offering x r ∷ post
        → s.cancelled ≡ true
        → t ≡ record s { workers = pre ++ gone ∷ post; dropped = x ∷ s.dropped }
        → Step s t
    -- `if !ok { return }`: the input channel is drained and closed.
    drained :
        (pre post : List (Worker In Out))
        → s.workers ≡ pre ++ idle ∷ post
        → s.input ≡ []
        → t ≡ record s { workers = pre ++ gone ∷ post }
        → Step s t
    -- `case <-ctx.Done(): return` of the first select.
    stop :
        (pre post : List (Worker In Out))
        → s.workers ≡ pre ++ idle ∷ post
        → s.cancelled ≡ true
        → t ≡ record s { workers = pre ++ gone ∷ post }
        → Step s t
    -- The caller cancels ctx.
    cancel : s.cancelled ≡ false → t ≡ record s { cancelled = true } → Step s t
    -- `wg.Wait(); close(out)`.
    close :
        All IsGone s.workers → s.out_closed ≡ false → t ≡ record s { out_closed = true } → Step s t

  pub data Reach (s : Pool In Out) : Pool In Out → Type (ℓ ⊔ κ ⊔ μ) where
    here : Reach s s
    next : {t u : Pool In Out} → Reach s t → Step t u → Reach s u
