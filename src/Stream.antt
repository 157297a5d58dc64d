-- ===== src/Stream.antt =====
-- Channels between the stages. A channel is its history: the values that have been sent on it, in
-- order, and whether it has been closed. A stage is a function from the history of its input to
-- that of its output; what Go leaves open at each `select` with ctx.Done is a list of turns.
pub mod Relay
use gojob.Prelude.{Bool, true, false, List, [], ◌∷◌}

pub record Stream {ℓ} (A : Type ℓ) : Type ℓ where
  pub items : List A
  pub closed : Bool

-- One select: the communication goes ahead, or ctx is done. When the turns run out, the goroutine
-- is still blocked.
pub data Turn : Type 0 where
  accept cancel : Turn

-- The goroutine returns (and closes its output), or waits for the next turn.
abbrev pub ended {ℓ} : {A : Type ℓ} → Stream A
ended = record { items = []; closed = true }

abbrev pub blocked {ℓ} : {A : Type ℓ} → Stream A
blocked = record { items = []; closed = false }

-- A value is sent before the rest.
abbrev pub send {ℓ} : {A : Type ℓ} → A → Stream A → Stream A
send x s = record s { items = x ∷ s.items }
