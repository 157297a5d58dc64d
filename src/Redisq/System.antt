-- ===== src/Redisq/System.antt =====
-- The clients of one Redis queue (queue/redisq/redisq.go): publishers, goroutines of Receive on any
-- number of hosts, and the messages that they have claimed. A step is one command, one transaction
-- or one script. A client that crashes makes no further steps.
use gojob.Prelude.{
  ℕ, zero, suc, ◌==◌, ◌≡◌, Bool, true, false, Option, none, some, List, [], ◌∷◌, ◌++◌,
  if◌then◌else◌, ℤ,
}
use gojob.Fileq.Decimal.{Text}
use gojob.Redisq.Redis.{Redis, at_id}
use gojob.Redisq.Script.{
  Claimed, publish_tx, claim_script, reclaim_script, ack_tx, nack_tx, dead_letter_tx, divert_tx,
}

-- A claimed message, and whether its sync.Once has run. `settled` is not in the program: the id has
-- left processing, by this message's own callback or because the lease was reclaimed.
pub record Handle : Type 0 where
  pub id : ℕ
  pub fired : Bool
  pub settled : Bool

-- `reserved` are the ids from INCR whose transaction has not run. The last three fields are not in the
-- program: the ids published, what each was published with, and the ids acknowledged.
pub record System (State : Type 0) : Type 0 where
  pub redis : State
  pub handles : List Handle
  pub reserved : List ℕ
  pub published : List ℕ
  pub sent : ℕ → Option Text
  pub acked : List ℕ

-- The callbacks of wrap, and divert.
pub data Final : Type 0 where
  final_ack final_nack final_dead final_divert : Final

abbrev pub get_handle : List Handle → ℕ → Option Handle
get_handle [] i = none
get_handle (h ∷ hs) zero = some h
get_handle (h ∷ hs) (suc i) = get_handle hs i

abbrev pub set_handle : List Handle → ℕ → Handle → List Handle
set_handle [] i k = []
set_handle (h ∷ hs) zero k = k ∷ hs
set_handle (h ∷ hs) (suc i) k = h ∷ set_handle hs i k

abbrev pub settle_id : ℕ → List Handle → List Handle
settle_id id [] = []
settle_id id (h ∷ hs) =
    let rest = settle_id id hs in
    if h.id == id then record h { settled = true } ∷ rest else h ∷ rest

abbrev pub settle_ids : List ℕ → List Handle → List Handle
settle_ids [] hs = hs
settle_ids (id ∷ ids) hs = settle_ids ids (settle_id id hs)

abbrev pub record_ack : Final → ℕ → List ℕ → List ℕ
record_ack final_ack id acked = id ∷ acked
record_ack _ id acked = acked

module _ (r : Redis) where
  open r use {State, incr, set_sealed, zrange_by_score}

  unfoldable pub start : State → System State
  start empty = record {
    redis = empty;
    handles = [];
    reserved = [];
    published = [];
    sent = λ id. none;
    acked = [];
  }

  unfoldable pub finalize_tx : Final → ℕ → State → State
  unfolding ack_tx nack_tx dead_letter_tx divert_tx
  finalize_tx final_ack id = ack_tx r id
  finalize_tx final_nack id = nack_tx r id
  finalize_tx final_dead id = dead_letter_tx r id
  finalize_tx final_divert id = divert_tx r id

  -- `once.Do`: the first callback of a message runs its transaction.
  unfoldable pub finalize_handle : Final → ℕ → System State → System State
  unfolding finalize_tx
  finalize_handle a i s = elim (get_handle s.handles i) [
    | none ↦ s
    | some h ↦ elim h.fired [
      | true ↦ s
      | false ↦ record s {
        redis = finalize_tx a h.id s.redis;
        handles = set_handle s.handles i (record h { fired = true; settled = true });
        acked = record_ack a h.id s.acked;
      }
    ]
  ]

  -- The same where the transaction fails: `once.Do` has run all the same.
  unfoldable pub finalize_failed : ℕ → System State → System State
  finalize_failed i s = elim (get_handle s.handles i) [
    | none ↦ s
    | some h ↦ record s { handles = set_handle s.handles i (record h { fired = true }) }
  ]

  pub data Step (s t : System State) : Type 0 where
    -- The two parts of Publish.
    reserved :
        t ≡ record s { redis = (incr s.redis).0; reserved = (incr s.redis).1 ∷ s.reserved }
        → Step s t
    published :
        (pre post : List ℕ) (id : ℕ) (b : Text)
        → s.reserved ≡ pre ++ id ∷ post
        → t ≡ record s {
          redis = publish_tx r id b s.redis;
          reserved = pre ++ post;
          published = id ∷ s.published;
          sent = at_id id (some b) s.sent;
        }
        → Step s t
    sealed : t ≡ record s { redis = set_sealed s.redis } → Step s t
    claimed :
        (deadline : ℤ) (q : State) (c : Claimed)
        → claim_script r deadline s.redis ≡ (q, some c)
        → t ≡ record s {
          redis = q;
          handles = record { id = c.id; fired = false; settled = false } ∷ s.handles;
        }
        → Step s t
    missed :
        (deadline : ℤ) (q : State)
        → claim_script r deadline s.redis ≡ (q, none)
        → t ≡ record s { redis = q }
        → Step s t
    -- reclaimScript, run by anyone, at its time.
    reclaimed :
        (now : ℤ)
        → t ≡ record s {
          redis = reclaim_script r now s.redis;
          handles = settle_ids (zrange_by_score now s.redis) s.handles;
        }
        → Step s t
    finalized : (a : Final) (i : ℕ) → t ≡ finalize_handle a i s → Step s t
    failed : (i : ℕ) → t ≡ finalize_failed i s → Step s t

  pub data Reach (s : System State) : System State → Type 0 where
    here : Reach s s
    next : {t u : System State} → Reach s t → Step t u → Reach s u

  -- No callback comes after the lease of its message has been reclaimed.
  abbrev pub IsPrompt : {s t : System State} → Step s t → Type 0
  IsPrompt {s} (finalized a i e) =
      (h : Handle) → get_handle s.handles i ≡ some h → h.fired ≡ false → h.settled ≡ false
  IsPrompt _ = Unit

  pub data PromptReach (s : System State) : System State → Type 0 where
    here : PromptReach s s
    next : {t u : System State} → PromptReach s t → (st : Step t u) → IsPrompt st → PromptReach s u
