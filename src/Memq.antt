-- ===== src/Memq.antt =====
-- queue/memq/memq.go: the in-memory queue, one function for each critical section of its mutex.
pub mod System
pub mod Handles
pub mod Places
pub mod Conservation
pub mod Outstanding
pub mod Drained
pub mod Open
pub mod Ended
pub mod Returned
pub mod Wakeup
pub mod Hang
pub mod Limit
use gojob.Prelude.{
  ℕ, zero, suc, ◌+◌, ◌-◌, ◌&&◌, ◌||◌, ◌==◌, Bool, true, false, Option, none, some, List, [], ◌∷◌,
  ◌++◌, length, if◌then◌else◌, pos,
}
use gojob.Queue.{Message, Handlers, new_message}
use gojob.Task.{Error, queue_closed}

pub record Item {ℓ} (T : Type ℓ) : Type ℓ where
  pub payload : T
  pub deliveries : ℕ

-- `token` says whether the channel `notify`, of capacity 1, holds a value. `outstanding` is never
-- decremented at 0 (Conservation), so the truncated `-` is exact.
pub record Queue {ℓ} (T : Type ℓ) : Type ℓ where
  pub pending : List (Item T)
  pub outstanding : ℕ
  pub is_sealed : Bool
  pub is_closed : Bool
  pub dead : List T
  pub token : Bool

-- The three numbers of `finalize`.
pub data Final : Type 0 where
  final_ack final_nack final_dead : Final

module _ {ℓ} {T : Type ℓ} where
  unfoldable pub new : Queue T
  new = record {
    pending = [];
    outstanding = 0;
    is_sealed = false;
    is_closed = false;
    dead = [];
    token = false;
  }

  -- A send that is skipped where the channel is full.
  unfoldable pub signal : Queue T → Queue T
  signal q = record q { token = true }

  -- Publish up to the unlock; it signals if it returns no error.
  unfoldable pub publish : T → Queue T → Queue T × Option Error
  publish payload q = if q.is_sealed || q.is_closed then (q, some queue_closed) else (
    record q {
      pending = q.pending ++ (record { payload = payload; deliveries = 0 }) ∷ [];
      outstanding = q.outstanding + 1;
    },
    none,
  )

  unfoldable pub seal : Queue T → Queue T
  seal q = record q { is_sealed = true }

  unfoldable pub close : Queue T → Queue T
  close q = record q { is_closed = true }

  unfoldable pub dead_letters : Queue T → List T
  dead_letters q = q.dead

  abbrev is_empty : List (Item T) → Bool
  is_empty [] = true
  is_empty (x ∷ xs) = false

  unfoldable pub drained_locked : Queue T → Bool
  drained_locked q = q.is_sealed && q.outstanding == 0 && is_empty q.pending

  -- The body of `finalize` under the lock.
  unfoldable pub finalize : Final → Item T → Queue T → Queue T
  finalize final_nack it q = record q { pending = q.pending ++ it ∷ [] }
  finalize final_ack it q = record q { outstanding = q.outstanding - 1 }
  finalize final_dead it q = record q {
    outstanding = q.outstanding - 1;
    dead = q.dead ++ it.payload ∷ [];
  }

-- What the locked part of Receive decides.
pub data Next {ℓ} (T : Type ℓ) : Type ℓ where
  got : Item T → Queue T → Next T
  finish wait : Next T

-- From the lock to the unlock of one round: the first pending item, counted as delivered once more;
-- without one, the end of a closed or drained queue, or the wait.
receive_from {ℓ} : {T : Type ℓ} → List (Item T) → Queue T → Next T
receive_from [] q = if q.is_closed || drained_locked q then finish else wait
receive_from (it ∷ rest) q =
    got (record it { deliveries = it.deliveries + 1 }) (record q { pending = rest })

unfoldable pub receive {ℓ} : {T : Type ℓ} → Queue T → Next T
unfolding receive_from drained_locked
receive q = receive_from q.pending q
