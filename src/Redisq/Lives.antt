-- ===== src/Redisq/Lives.antt =====
-- Every run of a Redis queue without late callbacks is a run of the life cycle, for each id
-- (queue/redisq/redisq.go).
use gojob.Prelude.{
  ℕ, ◌≤◌, ◌≡◌, refl, false, some, List, [], ◌∷◌, arith, Bool-cases, Option-cases, inl, inr,
}
use gojob.Redisq.Redis.{Redis, IsRedis, Data}
use gojob.Redisq.Script.{reclaim_loop, reclaim_one, reclaim_script}
use gojob.Redisq.System.{
  System, Handle, Final, final_ack, final_nack, final_dead, final_divert, start, get_handle,
  finalize_handle, finalize_tx, finalize_failed, record_ack, Step, reserved, published, sealed,
  claimed, missed, reclaimed, finalized, failed, IsPrompt, PromptReach, here, next,
}
use gojob.Redisq.Counts.{
  one_if, count, count-remove_first, count-pop_right, count-up_to, open_count-settle,
}
use gojob.Redisq.Effect.{
  view-publish_tx, view-reclaim_one, view-nack_tx, view-ack_tx, view-dead_letter_tx, view-divert_tx,
  claim_script-some, claim_script-none,
}
use gojob.Redisq.Exact.{IsExact, Step-IsExact, Reach-IsExact}
use gojob.Queue.Lifecycle.{
  Stage, absent, Lives, here, Lives-trans, IsAt, Becomes, published_now, delivered_now, given_back,
  buried, acked_now, IsDone, Lives-done,
}
use gojob.Redisq.Owners.{empty_data, start-IsExact}

-- The stage of an id, by the places of its copies.
abbrev pub Stands : ℕ → Stage → Data → List ℕ → Type 0
Stands i st d ack =
    IsAt st (count i d.pending) (count i d.processing) (count i d.dead) (count i ack)

-- The stage that an id goes on to.
abbrev pub GoesOn : ℕ → Stage → Data → List ℕ → Type 0
GoesOn i st d ack =
    Becomes st (count i d.pending) (count i d.processing) (count i d.dead) (count i ack)

module _ (r : Redis) (view : r.State → Data) (law : IsRedis r view) where
  one_if_most : (x i : ℕ) → one_if x i ≤ 1
  one_if_most x i = ground arith

  finalize_tx-GoesOn :
      (a : Final) (i id : ℕ) (q : r.State) (ack : List ℕ) (st : Stage)
      → one_if id i ≤ count i (view q).processing
      → Stands i st (view q) ack
      → GoesOn i st (view (finalize_tx r a id q)) (record_ack a id ack)
  unfolding finalize_tx
  finalize_tx-GoesOn final_ack i id q ack st there v =
      let c = count-remove_first i id (view q).processing in
      rw (view-ack_tx r view law id q) (
        acked_now st (one_if id i) _ _ _ _ _ _ _ _ (one_if_most id i) v refl (omega arith) refl
          (omega arith))
  finalize_tx-GoesOn final_nack i id q ack st there v =
      let c = count-remove_first i id (view q).processing in
      rw (view-nack_tx r view law id q) (
        given_back st (one_if id i) _ _ _ _ _ _ _ _ (one_if_most id i) v (omega arith) (omega arith)
          refl refl)
  finalize_tx-GoesOn final_dead i id q ack st there v =
      let c = count-remove_first i id (view q).processing in
      rw (view-dead_letter_tx r view law id q) (
        buried st (one_if id i) _ _ _ _ _ _ _ _ (one_if_most id i) v refl (omega arith)
          (omega arith) refl)
  finalize_tx-GoesOn final_divert i id q ack st there v =
      let c = count-remove_first i id (view q).processing in
      rw (view-divert_tx r view law id q) (
        buried st (one_if id i) _ _ _ _ _ _ _ _ (one_if_most id i) v refl (omega arith)
          (omega arith) refl)

  reclaim_loop-GoesOn :
      (i : ℕ) (ids : List ℕ) (q : r.State) (ack : List ℕ) (st : Stage)
      → count i ids ≤ count i (view q).processing
      → Stands i st (view q) ack
      → GoesOn i st (view (reclaim_loop r ids q)) ack
  unfolding reclaim_loop
  reclaim_loop-GoesOn i [] q ack st fits v = (st, here, v)
  reclaim_loop-GoesOn i (id ∷ ids) q ack st fits v =
      let one = view-reclaim_one r view law id q in
      let c = count-remove_first i id (view q).processing in
      let went : GoesOn i st (view (reclaim_one r id q)) ack = rw one (
        given_back st (one_if id i) _ _ _ _ _ _ _ _ (one_if_most id i) v (omega arith) (omega arith)
          refl refl) in
      let (st', path, v') = went in
      let (st'', path', v'') =
        reclaim_loop-GoesOn i ids (reclaim_one r id q) ack st' (rw one (omega arith)) v' in
      (st'', Lives-trans path path', v'')

  finalize_handle-GoesOn :
      (a : Final) (i k : ℕ) (s : System r.State) (st : Stage)
      → ((h : Handle) → get_handle s.handles k ≡ some h → h.fired ≡ false → h.settled ≡ false)
      → IsExact r view law s
      → Stands i st (view s.redis) s.acked
      → let t = finalize_handle r a k s in GoesOn i st (view t.redis) t.acked
  unfolding finalize_handle
  finalize_handle-GoesOn a i k s st prompt x v = elim (Option-cases (get_handle s.handles k)) [
    | inl missing ↦ rw (finalize_handle, missing) (st, here, v)
    | inr (h, e) ↦ elim (Bool-cases h.fired) [
      | inl used ↦ rw (finalize_handle, e, used) (st, here, v)
      | inr unused ↦
          let o = open_count-settle i k s.handles e (prompt h e unused) in
          rw (finalize_handle, e, unused)
            (finalize_tx-GoesOn a i h.id s.redis s.acked st (omega (arith, o, (x i).held)) v)
    ]
  ]

  finalize_failed-GoesOn :
      (i k : ℕ) (s : System r.State) (st : Stage)
      → Stands i st (view s.redis) s.acked
      → let t = finalize_failed r k s in GoesOn i st (view t.redis) t.acked
  unfolding finalize_failed
  finalize_failed-GoesOn i k s st v = elim (Option-cases (get_handle s.handles k)) [
    | inl missing ↦ rw (finalize_failed, missing) (st, here, v)
    | inr (h, e) ↦ rw (finalize_failed, e) (st, here, v)
  ]

  Step-GoesOn :
      {s t : System r.State} (i : ℕ) (st : Stage) (step : Step r s t)
      → IsPrompt r step
      → IsExact r view law s
      → Stands i st (view s.redis) s.acked
      → GoesOn i st (view t.redis) t.acked
  unfolding reclaim_script finalize_failed
  Step-GoesOn {s} i st (reserved e) prompt x v =
      let (seen, _) = law.view-incr s.redis in rw (e, seen) (st, here, v)
  Step-GoesOn {s} {t} i st (published pre post id b w e) prompt x v =
      let y = Step-IsExact r view law (published pre post id b w e) prompt x i in
      let seen = view-publish_tx r view law id b s.redis in
      published_now st (one_if id i) _ _ _ _ _ _ _ _ (omega (arith, y.placed, y.once)) v
        (rw (e, seen) (omega arith)) (rw (e, seen) refl) (rw (e, seen) refl) (rw e refl)
  Step-GoesOn {s} i st (sealed e) prompt x v = rw (e, law.view-set_sealed s.redis) (st, here, v)
  Step-GoesOn {s} i st (claimed deadline q c w e) prompt x v =
      let (rest, popped, viewed, _, _) = claim_script-some r view law deadline s.redis w in
      let p = count-pop_right i (view s.redis).pending popped in
      rw (e, viewed)
        (delivered_now st (one_if c.id i) _ _ _ _ _ _ _ _ (one_if_most c.id i) v p (omega arith)
          refl refl)
  Step-GoesOn {s} i st (missed deadline q w e) prompt x v =
      rw (e, claim_script-none r view law deadline s.redis w) (st, here, v)
  Step-GoesOn {s} i st (reclaimed now e) prompt x v =
      let fits = count-up_to i now (view s.redis).leases in
      let found = law.zrange_by_score_lem now s.redis in
      rw e (
        reclaim_loop-GoesOn i (r.zrange_by_score now s.redis) s.redis s.acked st
          (rw found (omega (arith, fits, (x i).leased))) v)
  Step-GoesOn {s} i st (finalized a k e) prompt x v =
      rw e (finalize_handle-GoesOn a i k s st prompt x v)
  Step-GoesOn {s} i st (failed k e) prompt x v = rw e (finalize_failed-GoesOn i k s st v)

  Reach-GoesOn :
      {s t : System r.State} (i : ℕ) (st : Stage)
      → PromptReach r s t
      → IsExact r view law s
      → Stands i st (view s.redis) s.acked
      → GoesOn i st (view t.redis) t.acked
  Reach-GoesOn i st here x v = (st, here, v)
  Reach-GoesOn i st (next p step prompt) x v =
      let (st', path, v') = Reach-GoesOn i st p x v in
      let (st'', path', v'') = Step-GoesOn i st' step prompt (Reach-IsExact r view law p x) v' in
      (st'', Lives-trans path path', v'')

  -- On keys that start empty, and where every callback comes before the lease of its message is
  -- reclaimed, each message lives by the life cycle: it is published once, delivered and given back any
  -- number of times, and then acknowledged or dead-lettered for good. Where it stands at any moment of
  -- a run is a stage of that machine, and from moment to moment the machine only goes on.
  pub PromptReach-Lives :
      (empty : r.State) {s t : System r.State}
      → view empty ≡ empty_data
      → PromptReach r (start r empty) s
      → PromptReach r s t
      → (i : ℕ)
      → (a b : Stage) × Lives absent a
        × Stands i a (view s.redis) s.acked
        × Lives a b
        × Stands i b (view t.redis) t.acked
  PromptReach-Lives empty {s} {t} e p q i =
      let x = start-IsExact r view law empty e in
      let begin : Stands i absent (view (start r empty).redis) ((start r empty).acked) =
        unfold start in rw e (refl, refl, refl, refl) in
      let (a, before, at) = Reach-GoesOn i absent p x begin in
      let (b, after, at') = Reach-GoesOn i a q (Reach-IsExact r view law p x) at in
      (a, b, before, at, after, at')

  -- In such runs a message that is dead-lettered or acknowledged stays so, and is in no other place.
  pub PromptReach-IsDone :
      (empty : r.State) {s t : System r.State} (i : ℕ) (st : Stage)
      → view empty ≡ empty_data
      → PromptReach r (start r empty) s
      → PromptReach r s t
      → IsDone st
      → Stands i st (view s.redis) s.acked
      → Stands i st (view t.redis) t.acked
  PromptReach-IsDone empty i st e p q end at =
      let x = Reach-IsExact r view law p (start-IsExact r view law empty e) in
      let (b, after, at') = Reach-GoesOn i st q x at in
      let same : b ≡ st = Lives-done after end in rw same at at'
