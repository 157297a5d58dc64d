-- ===== src/Redisq/Expired.antt =====
-- What becomes of a message whose consumer has died (queue/redisq/redisq.go: reclaimScript).
use gojob.Prelude.{ℕ, ◌+◌, ◌-◌, ◌≤◌, ◌≡◌, refl, List, [], ◌∷◌, ℤ, arith}
use gojob.Queue.Lifecycle.{Stage, absent, waiting, in_flight, dead, acked}
use gojob.Redisq.Redis.{Redis, IsRedis, Data, up_to}
use gojob.Redisq.Script.{reclaim_loop, reclaim_one, reclaim_script}
use gojob.Redisq.System.{System, start, PromptReach, here}
use gojob.Redisq.Counts.{one_if, count, count-remove_first, count-up_to}
use gojob.Redisq.Effect.{view-reclaim_one}
use gojob.Redisq.Exact.{Reach-IsExact}
use gojob.Redisq.Lives.{Stands, PromptReach-Lives}
use gojob.Redisq.Owners.{empty_data, start-IsExact}

module _ (r : Redis) (view : r.State → Data) (law : IsRedis r view) where
  -- The loop moves one copy for each id that it is given.
  reclaim_loop-counts :
      (i : ℕ) (ids : List ℕ) (q : r.State)
      → count i ids ≤ count i (view q).processing
      → let d = view (reclaim_loop r ids q) in
        (count i d.pending ≡ count i (view q).pending + count i ids)
        × (count i d.processing + count i ids ≡ count i (view q).processing)
        × (count i d.dead ≡ count i (view q).dead)
  unfolding reclaim_loop
  reclaim_loop-counts i [] q fits = (omega arith, omega arith, refl)
  reclaim_loop-counts i (id ∷ ids) q fits =
      let one = view-reclaim_one r view law id q in
      let c = count-remove_first i id (view q).processing in
      let q' = reclaim_one r id q in
      let p' : count i (view q').pending ≡ one_if id i + count i (view q).pending = rw one refl in
      let f' : count i (view q').processing ≡ count i (view q).processing - one_if id i =
        rw one c in
      let d' : count i (view q').dead ≡ count i (view q).dead = rw one refl in
      let (p, f, d) = reclaim_loop-counts i ids q' (omega arith) in
      (omega arith, omega arith, omega arith)

  goes_back :
      (i : ℕ) (st : Stage) (d d' : Data) (ack : List ℕ) (k : ℕ)
      → 1 ≤ k
      → k ≤ count i d.processing
      → Stands i st d ack
      → count i d'.pending ≡ count i d.pending + k
      → count i d'.processing + k ≡ count i d.processing
      → count i d'.dead ≡ count i d.dead
      → Stands i in_flight d ack × Stands i waiting d' ack
  goes_back i absent d d' ack k some_k fits at p f e = absurd (omega arith)
  goes_back i waiting d d' ack k some_k fits at p f e = absurd (omega arith)
  goes_back i in_flight d d' ack k some_k fits at p f e = (at, omega arith)
  goes_back i dead d d' ack k some_k fits at p f e = absurd (omega arith)
  goes_back i acked d d' ack k some_k fits at p f e = absurd (omega arith)

  -- On keys that start empty, and where every callback comes before the lease of its message is
  -- reclaimed: a message with a lease whose deadline is not after the time of a reclaim is in
  -- processing before the reclaim, and behind it in pending, once, and nowhere else.
  pub expired_goes_back :
      (empty : r.State) {s : System r.State} (i : ℕ) (now : ℤ)
      → view empty ≡ empty_data
      → PromptReach r (start r empty) s
      → 1 ≤ count i (up_to now (view s.redis).leases)
      → Stands i in_flight (view s.redis) s.acked
        × Stands i waiting (view (reclaim_script r now s.redis)) s.acked
  unfolding reclaim_script
  expired_goes_back empty {s} i now e p late =
      let x = Reach-IsExact r view law p (start-IsExact r view law empty e) i in
      let (a, _, _, at, _, _) = PromptReach-Lives r view law empty e p here i in
      let found = law.zrange_by_score_lem now s.redis in
      let ids = r.zrange_by_score now s.redis in
      let same : count i ids ≡ count i (up_to now (view s.redis).leases) = rw found refl in
      let most = count-up_to i now (view s.redis).leases in
      let fits : count i ids ≤ count i (view s.redis).processing =
        omega (arith, same, most, x.leased) in
      let (p', f', d') = reclaim_loop-counts i ids s.redis fits in
      goes_back i a (view s.redis) (view (reclaim_loop r ids s.redis)) s.acked (count i ids)
        (omega arith) fits at p' f' d'
