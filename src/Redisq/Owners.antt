-- ===== src/Redisq/Owners.antt =====
-- What runs without late callbacks promise, and what a reclaim leaves alone
-- (queue/redisq/redisq.go).
use gojob.Prelude.{ℕ, ◌+◌, ◌≤◌, ◌≡◌, refl, false, none, List, [], ◌∷◌, ℤ, arith, ◌∙◌}
use gojob.Redisq.Redis.{Redis, IsRedis, Data, up_to}
use gojob.Redisq.Script.{reclaim_loop, reclaim_one, reclaim_script}
use gojob.Redisq.System.{System, start, PromptReach}
use gojob.Redisq.Counts.{count, lease_count, open_count, count-remove_first, lease_count-zrem_from}
use gojob.Redisq.Effect.{view-reclaim_one}
use gojob.Redisq.Exact.{IsExact, Reach-IsExact}
use gojob.Redisq.Kept.{listed}

-- The keys before anyone has used the queue.
abbrev pub empty_data : Data
empty_data = record {
  seq = 0;
  pending = [];
  processing = [];
  dead = [];
  leases = [];
  payloads = λ id. none;
  deliveries = λ id. 0;
  is_sealed = false;
}

module _ (r : Redis) (view : r.State → Data) (law : IsRedis r view) where
  pub start-IsExact :
      (empty : r.State) → view empty ≡ empty_data → IsExact r view law (start r empty)
  unfolding start
  start-IsExact empty e i = rw e (record {
    placed = omega arith;
    once = omega arith;
    numbered = λ n. omega arith;
    held = refl;
    leased = refl;
  })

  -- On keys that start empty, and where every callback comes before the lease of its message is
  -- reclaimed, each id is published at most once, and a published one is in exactly one place:
  -- pending, processing, dead or acknowledged; failed transactions and crashed clients included.
  pub exactly_once :
      (empty : r.State) {s : System r.State}
      → view empty ≡ empty_data
      → PromptReach r (start r empty) s
      → (i : ℕ)
      → (count i s.published ≡ listed i (view s.redis) + count i s.acked)
        × (count i s.published ≤ 1)
  exactly_once empty {s} e p i =
      let v = Reach-IsExact r view law p (start-IsExact empty e) i in
      (v.placed, omega (arith, v.once))

  -- On keys that start empty, and where every callback comes before the lease of its message is
  -- reclaimed, no two clients own the same message: an id has at most one open message, and it has
  -- one exactly while it is in processing, under exactly one lease.
  pub one_owner :
      (empty : r.State) {s : System r.State}
      → view empty ≡ empty_data
      → PromptReach r (start r empty) s
      → (i : ℕ)
      → (open_count i s.handles ≤ 1)
        × (open_count i s.handles ≡ count i (view s.redis).processing)
        × (open_count i s.handles ≡ lease_count i (view s.redis).leases)
  one_owner empty {s} e p i =
      let v = Reach-IsExact r view law p (start-IsExact empty e) i in
      (
        omega (arith, v.held, v.placed, v.once),
        omega (arith, v.held),
        omega (arith, v.held, v.leased),
      )

  -- What a reclaim says of one id.
  abbrev pub Untouched : ℕ → Data → Data → Type 0
  Untouched i d d' =
      (count i d'.pending ≡ count i d.pending)
      × (count i d'.processing ≡ count i d.processing)
      × (lease_count i d'.leases ≡ lease_count i d.leases)

  reclaim_loop-Untouched :
      (i : ℕ) (ids : List ℕ) (s : r.State)
      → count i ids ≡ 0
      → Untouched i (view s) (view (reclaim_loop r ids s))
  unfolding reclaim_loop
  reclaim_loop-Untouched i [] s none_of_them = (refl, refl, refl)
  reclaim_loop-Untouched i (id ∷ ids) s none_of_them =
      let (p, q, l) = reclaim_loop-Untouched i ids (reclaim_one r id s) (omega arith) in
      let one = view-reclaim_one r view law id s in
      let c = count-remove_first i id (view s).processing in
      let z = lease_count-zrem_from i id (view s).leases in
      (p ∙ rw one (omega arith), q ∙ rw one (omega (arith, c)), l ∙ rw one (ground (arith, z)))

  -- A reclaim leaves every message alone that no lease with a deadline up to its time names: it stays
  -- where it is, with its lease.
  pub reclaim_script-Untouched :
      (i : ℕ) (now : ℤ) (s : r.State)
      → count i (up_to now (view s).leases) ≡ 0
      → Untouched i (view s) (view (reclaim_script r now s))
  unfolding reclaim_script
  reclaim_script-Untouched i now s later =
      reclaim_loop-Untouched i (r.zrange_by_score now s) s
        (rw (law.zrange_by_score_lem now s) later)
