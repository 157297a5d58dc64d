-- ===== src/Redisq/Kept.antt =====
-- No published message is lost in Redis, whatever the clients do (queue/redisq/redisq.go).
use gojob.Prelude.{ℕ, ◌+◌, ◌≤◌, ◌≡◌, true, List, [], ◌∷◌, arith, Option-cases, inl, inr}
use gojob.Redisq.Redis.{Redis, IsRedis, Data}
use gojob.Redisq.Script.{reclaim_loop, reclaim_one, reclaim_script, drain_script}
use gojob.Redisq.System.{
  System, Final, final_ack, final_nack, final_dead, final_divert, start, get_handle,
  finalize_handle, finalize_tx, finalize_failed, record_ack, Step, reserved, published, sealed,
  claimed, missed, reclaimed, finalized, failed, Reach, here, next,
}
use gojob.Redisq.Counts.{count, count-remove_first, count-pop_right}
use gojob.Redisq.Effect.{
  view-publish_tx, view-reclaim_one, view-nack_tx, view-ack_tx, view-dead_letter_tx, view-divert_tx,
  claim_script-some, claim_script-none, drain_script-true,
}

-- The occurrences of an id in the three lists.
abbrev pub listed : ℕ → Data → ℕ
listed i d = count i d.pending + count i d.processing + count i d.dead

module _ (r : Redis) (view : r.State → Data) (law : IsRedis r view) where
  abbrev IsKept : System r.State → Type 0
  IsKept s = (i : ℕ) → count i s.published ≤ listed i (view s.redis) + count i s.acked

  reclaim_one-listed :
      (i id : ℕ) (s : r.State) → listed i (view s) ≤ listed i (view (reclaim_one r id s))
  reclaim_one-listed i id s =
      rw (view-reclaim_one r view law id s)
        (ground (arith, count-remove_first i id (view s).processing))

  reclaim_loop-listed :
      (i : ℕ) (ids : List ℕ) (s : r.State)
      → listed i (view s) ≤ listed i (view (reclaim_loop r ids s))
  unfolding reclaim_loop
  reclaim_loop-listed i [] s = omega arith
  reclaim_loop-listed i (id ∷ ids) s =
      omega (arith, reclaim_one-listed i id s, reclaim_loop-listed i ids (reclaim_one r id s))

  -- A callback moves its id on, or takes it out and records it.
  finalize_tx-listed :
      (a : Final) (i id : ℕ) (s : r.State) (acked : List ℕ)
      → listed i (view s) + count i acked
        ≤ listed i (view (finalize_tx r a id s)) + count i (record_ack a id acked)
  unfolding finalize_tx
  finalize_tx-listed final_ack i id s acked =
      rw (view-ack_tx r view law id s) (ground (arith, count-remove_first i id (view s).processing))
  finalize_tx-listed final_nack i id s acked =
      rw (view-nack_tx r view law id s)
        (ground (arith, count-remove_first i id (view s).processing))
  finalize_tx-listed final_dead i id s acked =
      rw (view-dead_letter_tx r view law id s)
        (ground (arith, count-remove_first i id (view s).processing))
  finalize_tx-listed final_divert i id s acked =
      rw (view-divert_tx r view law id s)
        (ground (arith, count-remove_first i id (view s).processing))

  finalize_handle-IsKept :
      (a : Final) (k : ℕ) (s : System r.State) → IsKept s → IsKept (finalize_handle r a k s)
  unfolding finalize_handle
  finalize_handle-IsKept a k s v i = elim (Option-cases (get_handle s.handles k)) [
    | inl missing ↦ ground (arith, missing, v i)
    | inr (h, e) ↦ ground (arith, e, v i, finalize_tx-listed a i h.id s.redis s.acked)
  ]

  finalize_failed-IsKept : (k : ℕ) (s : System r.State) → IsKept s → IsKept (finalize_failed r k s)
  unfolding finalize_failed
  finalize_failed-IsKept k s v i = ground (arith, v i)

  Step-IsKept : {s t : System r.State} → Step r s t → IsKept s → IsKept t
  unfolding reclaim_script
  Step-IsKept {s} (reserved e) v i = rw (e, (law.view-incr s.redis).0) (v i)
  Step-IsKept {s} (published pre post id b w e) v i =
      rw (e, view-publish_tx r view law id b s.redis) (omega (arith, v i))
  Step-IsKept {s} (sealed e) v i = rw (e, law.view-set_sealed) (v i)
  Step-IsKept {s} (claimed deadline q c w e) v i =
      let (rest, popped, viewed, _, _) = claim_script-some r view law deadline s.redis w in
      rw (e, viewed) (omega (arith, v i, count-pop_right i (view s.redis).pending popped))
  Step-IsKept {s} (missed deadline q w e) v i =
      rw (e, claim_script-none r view law deadline s.redis w) (v i)
  Step-IsKept {s} (reclaimed now e) v i =
      rw e (omega (arith, v i, reclaim_loop-listed i (r.zrange_by_score now s.redis) s.redis))
  Step-IsKept {s} (finalized a k e) v i = rw e (finalize_handle-IsKept a k s v i)
  Step-IsKept {s} (failed k e) v i = rw e (finalize_failed-IsKept k s v i)

  Reach-IsKept : {s t : System r.State} → Reach r s t → IsKept s → IsKept t
  Reach-IsKept here v = v
  Reach-IsKept (next p st) v = Step-IsKept st (Reach-IsKept p v)

  -- No published message is lost, whatever the clients do, late callbacks, failed transactions and
  -- crashes included: each id is in pending, processing or dead, or was acknowledged, at least as
  -- often as it was published.
  pub never_lost :
      (empty : r.State) {s : System r.State}
      → Reach r (start r empty) s
      → (i : ℕ) → count i s.published ≤ listed i (view s.redis) + count i s.acked
  never_lost empty p = Reach-IsKept p (λ i. unfold start in omega arith)

  -- Where drainScript says that the queue is drained, every message that was published so far is
  -- dead-lettered or acknowledged, at least as often as it was published.
  pub drained_all_done :
      (empty : r.State) {s : System r.State}
      → Reach r (start r empty) s
      → drain_script r s.redis ≡ true
      → (i : ℕ) → count i s.published ≤ count i (view s.redis).dead + count i s.acked
  drained_all_done empty {s} p d i =
      let (_, no_pending, no_processing) = drain_script-true r view law s.redis d in
      let kept = never_lost empty p i in
      let none_left : count i s.published
          ≤ count i [] + count i [] + count i (view s.redis).dead + count i s.acked =
        rw (no_pending, no_processing) at kept in
      omega (arith, none_left)
