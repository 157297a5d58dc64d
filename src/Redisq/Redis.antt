-- ===== src/Redisq/Redis.antt =====
-- What queue/redisq/redisq.go uses of Redis: the commands on the eight keys of a queue. The server is
-- not part of the program. `IsRedis` states the documentation of the commands, on the data types of the
-- keys. An id is the number from INCR, which the program writes in decimal.
use gojob.Prelude.{
  ℕ, suc, ◌==◌, ◌≡◌, Bool, true, Option, none, some, List, [], ◌∷◌, if◌then◌else◌, length, ℤ, leb_ℤ,
  ltb_ℤ,
}
use gojob.Fileq.Decimal.{Text}

pub data ListKey : Type 0 where
  pending processing dead : ListKey

-- The values of the keys: a counter, three lists with their left end first, a sorted set with its
-- least score first, two hashes, and a flag.
pub record Data : Type 0 where
  pub seq : ℕ
  pub pending : List ℕ
  pub processing : List ℕ
  pub dead : List ℕ
  pub leases : List (ℕ × ℤ)
  pub payloads : ℕ → Option Text
  pub deliveries : ℕ → ℕ
  pub is_sealed : Bool

abbrev pub list_at : ListKey → Data → List ℕ
list_at pending d = d.pending
list_at processing d = d.processing
list_at dead d = d.dead

abbrev pub set_list : ListKey → List ℕ → Data → Data
set_list pending l d = record d { pending = l }
set_list processing l d = record d { processing = l }
set_list dead l d = record d { dead = l }

-- LREM with count 1: the first occurrence from the left.
abbrev pub remove_first : ℕ → List ℕ → List ℕ
remove_first x [] = []
remove_first x (y ∷ ys) = let rest = remove_first x ys in if x == y then ys else y ∷ rest

-- The right end of a list, and the list without it.
abbrev pub pop_right : List ℕ → Option (List ℕ × ℕ)
pop_right [] = none
pop_right (x ∷ xs) = elim (pop_right xs) [ none ↦ some ([], x) | some (ys, y) ↦ some (x ∷ ys, y) ]

abbrev pub zrem_from : ℕ → List (ℕ × ℤ) → List (ℕ × ℤ)
zrem_from x [] = []
zrem_from x ((y, score) ∷ ys) =
    let rest = zrem_from x ys in if x == y then rest else (y, score) ∷ rest

abbrev pub insert_scored : ℕ → ℤ → List (ℕ × ℤ) → List (ℕ × ℤ)
insert_scored x score [] = (x, score) ∷ []
insert_scored x score ((y, t) ∷ ys) =
    let rest = insert_scored x score ys in
    if ltb_ℤ score t then (x, score) ∷ (y, t) ∷ ys else (y, t) ∷ rest

abbrev pub up_to : ℤ → List (ℕ × ℤ) → List ℕ
up_to max [] = []
up_to max ((x, score) ∷ xs) = let rest = up_to max xs in if leb_ℤ score max then x ∷ rest else rest

abbrev pub at_id {ℓ} : {A : Type ℓ} → ℕ → A → (ℕ → A) → ℕ → A
at_id x a h y = if x == y then a else h y

-- The commands; one that reports something returns it beside the state.
pub record Redis : Type 1 where
  pub State : Type 0
  pub incr : State → State × ℕ
  pub set_sealed : State → State
  pub exists_sealed : State → Bool
  pub lpush : ListKey → ℕ → State → State
  pub lrem : ListKey → ℕ → State → State
  pub llen : ListKey → State → ℕ
  pub rpoplpush : ListKey → ListKey → State → State × Option ℕ
  pub hset_payload : ℕ → Text → State → State
  pub hget_payload : ℕ → State → Option Text
  pub hdel_payload : ℕ → State → State
  pub hincr_deliveries : ℕ → State → State × ℕ
  pub hdel_deliveries : ℕ → State → State
  pub zadd : ℤ → ℕ → State → State
  pub zrem : ℕ → State → State
  pub zrange_by_score : ℤ → State → List ℕ

abbrev pub move_right : ListKey → ListKey → Data → Option (List ℕ × ℕ) → Data × Option ℕ
move_right from to d none = (d, none)
move_right from to d (some (rest, x)) =
    let d' = set_list from rest d in (set_list to (x ∷ list_at to d') d', some x)

pub record IsRedis (r : Redis) (view : r.State → Data) : Type 0 where
  pub view-incr :
      (s : r.State)
      → (view (r.incr s).0 ≡ record (view s) { seq = suc (view s).seq })
        × ((r.incr s).1 ≡ suc (view s).seq)
  pub view-set_sealed : (s : r.State) → view (r.set_sealed s) ≡ record (view s) { is_sealed = true }
  pub exists_sealed_lem : (s : r.State) → r.exists_sealed s ≡ (view s).is_sealed
  pub view-lpush :
      (k : ListKey) (x : ℕ) (s : r.State)
      → view (r.lpush k x s) ≡ set_list k (x ∷ list_at k (view s)) (view s)
  pub view-lrem :
      (k : ListKey) (x : ℕ) (s : r.State)
      → view (r.lrem k x s) ≡ set_list k (remove_first x (list_at k (view s))) (view s)
  pub llen_lem : (k : ListKey) (s : r.State) → r.llen k s ≡ length (list_at k (view s))
  pub view-rpoplpush :
      (from to : ListKey) (s : r.State)
      → (view (r.rpoplpush from to s).0, (r.rpoplpush from to s).1)
        ≡ move_right from to (view s) (pop_right (list_at from (view s)))
  pub view-hset_payload :
      (x : ℕ) (b : Text) (s : r.State)
      → view (r.hset_payload x b s)
        ≡ record (view s) { payloads = at_id x (some b) (view s).payloads }
  pub hget_payload_lem : (x : ℕ) (s : r.State) → r.hget_payload x s ≡ (view s).payloads x
  pub view-hdel_payload :
      (x : ℕ) (s : r.State)
      → view (r.hdel_payload x s) ≡ record (view s) { payloads = at_id x none (view s).payloads }
  pub view-hincr_deliveries :
      (x : ℕ) (s : r.State)
      → (view (r.hincr_deliveries x s).0 ≡ record (view s) {
        deliveries = at_id x (suc ((view s).deliveries x)) (view s).deliveries;
      })
        × ((r.hincr_deliveries x s).1 ≡ suc ((view s).deliveries x))
  pub view-hdel_deliveries :
      (x : ℕ) (s : r.State)
      → view (r.hdel_deliveries x s)
        ≡ record (view s) { deliveries = at_id x 0 (view s).deliveries }
  pub view-zadd :
      (score : ℤ) (x : ℕ) (s : r.State)
      → view (r.zadd score x s)
        ≡ record (view s) { leases = insert_scored x score (zrem_from x (view s).leases) }
  pub view-zrem :
      (x : ℕ) (s : r.State)
      → view (r.zrem x s) ≡ record (view s) { leases = zrem_from x (view s).leases }
  pub zrange_by_score_lem :
      (max : ℤ) (s : r.State) → r.zrange_by_score max s ≡ up_to max (view s).leases
