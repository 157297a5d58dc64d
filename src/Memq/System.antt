-- ===== src/Memq/System.antt =====
-- The goroutines around a memq queue (queue/memq/memq.go): callers, the goroutines of Receive, and
-- the handles of delivered messages. A step is one critical section, one signal or one select.
use gojob.Prelude.{
  ℕ, zero, suc, Bool, true, false, Option, none, some, List, [], ◌∷◌, ◌++◌, ◌≡◌, pos, replicate,
}
use gojob.Memq.{
  Item, Queue, Final, final_ack, final_nack, final_dead, new, signal, publish, seal, close,
  finalize, got, finish, wait, receive,
}
use gojob.Queue.{Message, new_message}

-- Where a goroutine of Receive stands: before the lock, in the select on `notify`, in the select that
-- sends a message, or returned.
pub data Receiver {ℓ} (T : Type ℓ) : Type ℓ where
  checking : Receiver T
  waiting : Receiver T
  holding : Item T → Receiver T
  returned : Receiver T

-- A delivered message, and whether its sync.Once has run.
pub record Handle {ℓ} (T : Type ℓ) : Type ℓ where
  pub item : Item T
  pub fired : Bool

-- `signals` counts the goroutines between an unlock and their signal. The last three fields are not
-- in the program: what was published, acknowledged, and dropped by a cancelled Receive.
pub record System {ℓ} (T : Type ℓ) : Type ℓ where
  pub queue : Queue T
  pub receivers : List (Receiver T)
  pub handles : List (Handle T)
  pub signals : ℕ
  pub published : List T
  pub acked : List T
  pub lost : List T

module _ {ℓ} {T : Type ℓ} where
  -- A new queue on which Receive is called this many times.
  unfoldable pub start : ℕ → System T
  unfolding new
  start n = record {
    queue = new;
    receivers = replicate n checking;
    handles = [];
    signals = 0;
    published = [];
    acked = [];
    lost = [];
  }

  abbrev pub get_handle : List (Handle T) → ℕ → Option (Handle T)
  get_handle [] i = none
  get_handle (h ∷ hs) zero = some h
  get_handle (h ∷ hs) (suc i) = get_handle hs i

  abbrev pub fire : List (Handle T) → ℕ → List (Handle T)
  fire [] i = []
  fire (h ∷ hs) zero = record h { fired = true } ∷ hs
  fire (h ∷ hs) (suc i) = h ∷ fire hs i

  abbrev pub record_ack : Final → Item T → List T → List T
  record_ack final_ack it acked = it.payload ∷ acked
  record_ack _ it acked = acked

  -- The callback of a message: `once.Do` around the critical section, and the signal to come.
  unfoldable pub finalize_handle : Final → ℕ → System T → System T
  unfolding finalize
  finalize_handle a i s = elim (get_handle s.handles i) [
    | none ↦ s
    | some h ↦ elim h.fired [
      | true ↦ s
      | false ↦ record s {
        queue = finalize a h.item s.queue;
        handles = fire s.handles i;
        signals = suc s.signals;
        acked = record_ack a h.item s.acked;
      }
    ]
  ]

  -- wrap: the message of the i-th delivery.
  unfoldable pub wrap : ℕ → Item T → Message (System T) T
  unfolding new_message finalize_handle
  wrap i it = new_message it.payload (pos it.deliveries) (record {
    ack = some (λ s. (finalize_handle final_ack i s, none));
    nack = some (λ s. (finalize_handle final_nack i s, none));
    dead_letter = some (λ s. (finalize_handle final_dead i s, none));
  })

  pub data Step (s t : System T) : Type ℓ where
    -- Publish on an open queue; a refused one changes nothing.
    published :
        (payload : T) (q : Queue T)
        → publish payload s.queue ≡ (q, none)
        → t ≡ record s { queue = q; signals = suc s.signals; published = payload ∷ s.published }
        → Step s t
    sealed : t ≡ record s { queue = seal s.queue; signals = suc s.signals } → Step s t
    closed : t ≡ record s { queue = close s.queue; signals = suc s.signals } → Step s t
    signalled :
        (n : ℕ)
        → s.signals ≡ suc n
        → t ≡ record s { queue = signal s.queue; signals = n }
        → Step s t
    -- The locked part of Receive.
    took :
        (pre post : List (Receiver T)) (it : Item T) (q : Queue T)
        → s.receivers ≡ pre ++ checking ∷ post
        → receive s.queue ≡ got it q
        → t ≡ record s { queue = q; receivers = pre ++ holding it ∷ post }
        → Step s t
    ended :
        (pre post : List (Receiver T))
        → s.receivers ≡ pre ++ checking ∷ post
        → receive s.queue ≡ finish
        → t ≡ record s { receivers = pre ++ returned ∷ post }
        → Step s t
    parked :
        (pre post : List (Receiver T))
        → s.receivers ≡ pre ++ checking ∷ post
        → receive s.queue ≡ wait
        → t ≡ record s { receivers = pre ++ waiting ∷ post }
        → Step s t
    -- `case <-q.notify`.
    woken :
        (pre post : List (Receiver T))
        → s.receivers ≡ pre ++ waiting ∷ post
        → s.queue.token ≡ true
        → t ≡ record s {
          queue = record (s.queue) { token = false };
          receivers = pre ++ checking ∷ post;
        }
        → Step s t
    -- `case out <- q.wrap(it)`.
    delivered :
        (pre post : List (Receiver T)) (it : Item T)
        → s.receivers ≡ pre ++ holding it ∷ post
        → t ≡ record s {
          receivers = pre ++ checking ∷ post;
          handles = s.handles ++ record { item = it; fired = false } ∷ [];
        }
        → Step s t
    -- `case <-ctx.Done()` of the two selects.
    wait_cancelled :
        (pre post : List (Receiver T))
        → s.receivers ≡ pre ++ waiting ∷ post
        → t ≡ record s { receivers = pre ++ returned ∷ post }
        → Step s t
    send_cancelled :
        (pre post : List (Receiver T)) (it : Item T)
        → s.receivers ≡ pre ++ holding it ∷ post
        → t ≡ record s { receivers = pre ++ returned ∷ post; lost = it.payload ∷ s.lost }
        → Step s t
    -- A callback of a delivered message.
    finalized : (a : Final) (i : ℕ) → t ≡ finalize_handle a i s → Step s t

  pub data Reach (s : System T) : System T → Type ℓ where
    here : Reach s s
    next : {t u : System T} → Reach s t → Step t u → Reach s u
