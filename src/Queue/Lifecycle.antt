-- ===== src/Queue/Lifecycle.antt =====
-- What the durable backends promise for one message (queue/queue.go: Message, Queue), as a state
-- machine: the specification of queue/fileq and queue/redisq.
use gojob.Prelude.{ℕ, zero, suc, ◌+◌, ◌≤◌, ◌≡◌, ◌⊎◌, inl, inr, refl, arith}

-- Not published, in one of the three lists, or acknowledged.
pub data Stage : Type 0 where
  absent waiting in_flight dead acked : Stage

-- What may happen to a message.
pub data Moves : Stage → Stage → Type 0 where
  publishes : Moves absent waiting
  delivers : Moves waiting in_flight
  gives_back : Moves in_flight waiting
  buries : Moves in_flight dead
  acks : Moves in_flight acked

pub data Lives (a : Stage) : Stage → Type 0 where
  here : Lives a a
  next : {b c : Stage} → Lives a b → Moves b c → Lives a c

-- How often the id is in pending, in processing, in dead and among those acknowledged.
abbrev pub IsAt : Stage → ℕ → ℕ → ℕ → ℕ → Type 0
IsAt absent p f d a = (p ≡ 0) × (f ≡ 0) × (d ≡ 0) × (a ≡ 0)
IsAt waiting p f d a = (p ≡ 1) × (f ≡ 0) × (d ≡ 0) × (a ≡ 0)
IsAt in_flight p f d a = (p ≡ 0) × (f ≡ 1) × (d ≡ 0) × (a ≡ 0)
IsAt dead p f d a = (p ≡ 0) × (f ≡ 0) × (d ≡ 1) × (a ≡ 0)
IsAt acked p f d a = (p ≡ 0) × (f ≡ 0) × (d ≡ 0) × (a ≡ 1)

-- The machine goes on to these numbers.
abbrev pub Becomes : Stage → ℕ → ℕ → ℕ → ℕ → Type 0
Becomes st p f d a = (st' : Stage) × Lives st st' × IsAt st' p f d a

pub Lives-trans : {a b c : Stage} → Lives a b → Lives b c → Lives a c
Lives-trans x here = x
Lives-trans x (next y m) = next (Lives-trans x y) m

IsAt-same :
    (st : Stage) {p f d a p' f' d' a' : ℕ}
    → IsAt st p f d a
    → p' ≡ p
    → f' ≡ f
    → d' ≡ d
    → a' ≡ a
    → IsAt st p' f' d' a'
IsAt-same absent at e1 e2 e3 e4 = omega arith
IsAt-same waiting at e1 e2 e3 e4 = omega arith
IsAt-same in_flight at e1 e2 e3 e4 = omega arith
IsAt-same dead at e1 e2 e3 e4 = omega arith
IsAt-same acked at e1 e2 e3 e4 = omega arith

pub stays :
    (st : Stage) {p f d a p' f' d' a' : ℕ}
    → IsAt st p f d a
    → p' ≡ p
    → f' ≡ f
    → d' ≡ d
    → a' ≡ a
    → Becomes st p' f' d' a'
stays st at e1 e2 e3 e4 = (st, here, IsAt-same st at e1 e2 e3 e4)

-- Where `b` copies of the id go from absent to waiting.
pub published_now :
    (st : Stage) (b p f d a p' f' d' a' : ℕ)
    → p' + f' + d' + a' ≤ 1
    → IsAt st p f d a
    → p' ≡ p + b
    → f' ≡ f
    → d' ≡ d
    → a' ≡ a
    → Becomes st p' f' d' a'
published_now st zero p f d a p' f' d' a' le at e1 e2 e3 e4 =
    stays st at (omega arith) (omega arith) (omega arith) (omega arith)
published_now absent (suc b) p f d a p' f' d' a' le at e1 e2 e3 e4 =
    (waiting, next here publishes, omega arith)
published_now waiting (suc b) p f d a p' f' d' a' le at e1 e2 e3 e4 = absurd (omega arith)
published_now in_flight (suc b) p f d a p' f' d' a' le at e1 e2 e3 e4 = absurd (omega arith)
published_now dead (suc b) p f d a p' f' d' a' le at e1 e2 e3 e4 = absurd (omega arith)
published_now acked (suc b) p f d a p' f' d' a' le at e1 e2 e3 e4 = absurd (omega arith)

-- Where `b` copies of the id go from waiting to in_flight.
pub delivered_now :
    (st : Stage) (b p f d a p' f' d' a' : ℕ)
    → b ≤ 1
    → IsAt st p f d a
    → p ≡ p' + b
    → f' ≡ f + b
    → d' ≡ d
    → a' ≡ a
    → Becomes st p' f' d' a'
delivered_now st zero p f d a p' f' d' a' le at e1 e2 e3 e4 =
    stays st at (omega arith) (omega arith) (omega arith) (omega arith)
delivered_now absent (suc b) p f d a p' f' d' a' le at e1 e2 e3 e4 = absurd (omega arith)
delivered_now waiting (suc b) p f d a p' f' d' a' le at e1 e2 e3 e4 =
    (in_flight, next here delivers, omega arith)
delivered_now in_flight (suc b) p f d a p' f' d' a' le at e1 e2 e3 e4 = absurd (omega arith)
delivered_now dead (suc b) p f d a p' f' d' a' le at e1 e2 e3 e4 = absurd (omega arith)
delivered_now acked (suc b) p f d a p' f' d' a' le at e1 e2 e3 e4 = absurd (omega arith)

-- Where `b` copies of the id go from in_flight to waiting.
pub given_back :
    (st : Stage) (b p f d a p' f' d' a' : ℕ)
    → b ≤ 1
    → IsAt st p f d a
    → p' ≡ p + b
    → f ≡ f' + b
    → d' ≡ d
    → a' ≡ a
    → Becomes st p' f' d' a'
given_back st zero p f d a p' f' d' a' le at e1 e2 e3 e4 =
    stays st at (omega arith) (omega arith) (omega arith) (omega arith)
given_back absent (suc b) p f d a p' f' d' a' le at e1 e2 e3 e4 = absurd (omega arith)
given_back waiting (suc b) p f d a p' f' d' a' le at e1 e2 e3 e4 = absurd (omega arith)
given_back in_flight (suc b) p f d a p' f' d' a' le at e1 e2 e3 e4 =
    (waiting, next here gives_back, omega arith)
given_back dead (suc b) p f d a p' f' d' a' le at e1 e2 e3 e4 = absurd (omega arith)
given_back acked (suc b) p f d a p' f' d' a' le at e1 e2 e3 e4 = absurd (omega arith)

-- Where `b` copies of the id go from in_flight to dead.
pub buried :
    (st : Stage) (b p f d a p' f' d' a' : ℕ)
    → b ≤ 1
    → IsAt st p f d a
    → p' ≡ p
    → f ≡ f' + b
    → d' ≡ d + b
    → a' ≡ a
    → Becomes st p' f' d' a'
buried st zero p f d a p' f' d' a' le at e1 e2 e3 e4 =
    stays st at (omega arith) (omega arith) (omega arith) (omega arith)
buried absent (suc b) p f d a p' f' d' a' le at e1 e2 e3 e4 = absurd (omega arith)
buried waiting (suc b) p f d a p' f' d' a' le at e1 e2 e3 e4 = absurd (omega arith)
buried in_flight (suc b) p f d a p' f' d' a' le at e1 e2 e3 e4 =
    (dead, next here buries, omega arith)
buried dead (suc b) p f d a p' f' d' a' le at e1 e2 e3 e4 = absurd (omega arith)
buried acked (suc b) p f d a p' f' d' a' le at e1 e2 e3 e4 = absurd (omega arith)

-- Where `b` copies of the id go from in_flight to acked.
pub acked_now :
    (st : Stage) (b p f d a p' f' d' a' : ℕ)
    → b ≤ 1
    → IsAt st p f d a
    → p' ≡ p
    → f ≡ f' + b
    → d' ≡ d
    → a' ≡ a + b
    → Becomes st p' f' d' a'
acked_now st zero p f d a p' f' d' a' le at e1 e2 e3 e4 =
    stays st at (omega arith) (omega arith) (omega arith) (omega arith)
acked_now absent (suc b) p f d a p' f' d' a' le at e1 e2 e3 e4 = absurd (omega arith)
acked_now waiting (suc b) p f d a p' f' d' a' le at e1 e2 e3 e4 = absurd (omega arith)
acked_now in_flight (suc b) p f d a p' f' d' a' le at e1 e2 e3 e4 =
    (acked, next here acks, omega arith)
acked_now dead (suc b) p f d a p' f' d' a' le at e1 e2 e3 e4 = absurd (omega arith)
acked_now acked (suc b) p f d a p' f' d' a' le at e1 e2 e3 e4 = absurd (omega arith)

-- The two ends of the cycle.
abbrev pub IsDone : Stage → Type 0
IsDone st = (st ≡ dead) ⊎ (st ≡ acked)

Moves-not_done : {a b c : Stage} → Moves a b → IsDone a → b ≡ c
Moves-not_done publishes (inl e) = cc
Moves-not_done publishes (inr e) = cc
Moves-not_done delivers (inl e) = cc
Moves-not_done delivers (inr e) = cc
Moves-not_done gives_back (inl e) = cc
Moves-not_done gives_back (inr e) = cc
Moves-not_done buries (inl e) = cc
Moves-not_done buries (inr e) = cc
Moves-not_done acks (inl e) = cc
Moves-not_done acks (inr e) = cc

-- A message that has come to an end stays there.
pub Lives-done : {a b : Stage} → Lives a b → IsDone a → b ≡ a
Lives-done here e = refl
Lives-done (next y m) e = let same = Lives-done y e in Moves-not_done m (rw same e)
