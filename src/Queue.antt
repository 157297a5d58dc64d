-- ===== src/Queue.antt =====
-- queue/queue.go: the message handle. A backend is a state `Q`, and a finalization callback changes it.
pub mod Lifecycle
pub mod Fill
pub mod Consume
use gojob.Prelude.{Option, none, some, ℤ}
use gojob.Task.{Error}

-- A callback changes the backend's state and returns its error.
abbrev pub Handler {ℓ} : Type ℓ → Type ℓ
Handler Q = Q → Q × Option Error

-- A nil callback is `none`.
pub record Handlers {ℓ} (Q : Type ℓ) : Type ℓ where
  pub ack : Option (Handler Q)
  pub nack : Option (Handler Q)
  pub dead_letter : Option (Handler Q)

pub record Message {ℓ κ} (Q : Type ℓ) (T : Type κ) : Type (ℓ ⊔ κ) where
  pub payload : T
  pub deliveries : ℤ
  pub handlers : Handlers Q

module _ {ℓ κ} {Q : Type ℓ} {T : Type κ} where
  unfoldable pub new_message : T → ℤ → Handlers Q → Message Q T
  new_message payload deliveries handlers = record {
    payload = payload;
    deliveries = deliveries;
    handlers = handlers;
  }

  unfoldable pub ack : Message Q T → Handler Q
  ack m q = elim m.handlers.ack [ none ↦ (q, none) | some handler ↦ handler q ]

  unfoldable pub nack : Message Q T → Handler Q
  nack m q = elim m.handlers.nack [ none ↦ (q, none) | some handler ↦ handler q ]

  -- Without a dead-letter store it falls back to Ack.
  unfoldable pub dead_letter : Message Q T → Handler Q
  unfolding ack
  dead_letter m q = elim m.handlers.dead_letter [ none ↦ ack m q | some handler ↦ handler q ]
