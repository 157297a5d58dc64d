-- ===== src/Redisq/Payload.antt =====
-- A message keeps its payload until it is acknowledged (queue/redisq/redisq.go).
use gojob.Prelude.{
  ℕ, ◌≡◌, refl, ◌∙◌, Option, some, List, [], ◌∷◌, ℤ, arith, Bool-cases, Option-cases, inl, inr,
}
use gojob.Fileq.Decimal.{Text}
use gojob.Redisq.Redis.{Redis, IsRedis, Data}
use gojob.Redisq.Script.{Claimed, claim_script, reclaim_loop, reclaim_one, reclaim_script}
use gojob.Redisq.System.{
  System, Final, final_ack, final_nack, final_dead, final_divert, start, get_handle,
  finalize_handle, finalize_tx, finalize_failed, record_ack, Step, reserved, published, sealed,
  claimed, missed, reclaimed, finalized, failed, Reach, here, next,
}
use gojob.Redisq.Counts.{count}
use gojob.Redisq.Effect.{
  view-publish_tx, view-reclaim_one, view-nack_tx, view-ack_tx, view-dead_letter_tx, view-divert_tx,
  claim_script-some, claim_script-none,
}
use gojob.Redisq.Owners.{empty_data}

module _ (r : Redis) (view : r.State → Data) (law : IsRedis r view) where
  abbrev IsIntactAt : ℕ → (ℕ → Option Text) → List ℕ → Data → Type 0
  IsIntactAt i sent acked d = count i acked ≡ 0 → d.payloads i ≡ sent i

  abbrev IsIntact : System r.State → Type 0
  IsIntact s = (i : ℕ) → IsIntactAt i s.sent s.acked (view s.redis)

  reclaim_loop-payloads :
      (i : ℕ) (ids : List ℕ) (q : r.State)
      → (view (reclaim_loop r ids q)).payloads i ≡ (view q).payloads i
  unfolding reclaim_loop
  reclaim_loop-payloads i [] q = refl
  reclaim_loop-payloads i (id ∷ ids) q =
      reclaim_loop-payloads i ids (reclaim_one r id q) ∙ rw (view-reclaim_one r view law id q) refl

  finalize_tx-IsIntactAt :
      (a : Final) (i id : ℕ) (sent : ℕ → Option Text) (acked : List ℕ) (q : r.State)
      → IsIntactAt i sent acked (view q)
      → IsIntactAt i sent (record_ack a id acked) (view (finalize_tx r a id q))
  unfolding finalize_tx
  finalize_tx-IsIntactAt final_ack i id sent acked q v none_acked =
      rw (view-ack_tx r view law id q) (ground (arith, v, none_acked))
  finalize_tx-IsIntactAt final_nack i id sent acked q v none_acked =
      rw (view-nack_tx r view law id q) (v none_acked)
  finalize_tx-IsIntactAt final_dead i id sent acked q v none_acked =
      rw (view-dead_letter_tx r view law id q) (v none_acked)
  finalize_tx-IsIntactAt final_divert i id sent acked q v none_acked =
      rw (view-divert_tx r view law id q) (v none_acked)

  finalize_handle-IsIntact :
      (a : Final) (k : ℕ) (s : System r.State) → IsIntact s → IsIntact (finalize_handle r a k s)
  unfolding finalize_handle
  finalize_handle-IsIntact a k s v i = elim (Option-cases (get_handle s.handles k)) [
    | inl missing ↦ rw (finalize_handle, missing) (v i)
    | inr (h, e) ↦ elim (Bool-cases h.fired) [
      | inl used ↦ rw (finalize_handle, e, used) (v i)
      | inr fresh ↦
          rw (finalize_handle, e, fresh)
            (finalize_tx-IsIntactAt a i h.id s.sent s.acked s.redis (v i))
    ]
  ]

  finalize_failed-IsIntact :
      (k : ℕ) (s : System r.State) → IsIntact s → IsIntact (finalize_failed r k s)
  unfolding finalize_failed
  finalize_failed-IsIntact k s v i = elim (Option-cases (get_handle s.handles k)) [
    | inl missing ↦ rw (finalize_failed, missing) (v i)
    | inr (h, e) ↦ rw (finalize_failed, e) (v i)
  ]

  Step-IsIntact : {s t : System r.State} → Step r s t → IsIntact s → IsIntact t
  unfolding reclaim_script
  Step-IsIntact {s} (reserved e) v i = rw (e, (law.view-incr s.redis).0) (v i)
  Step-IsIntact {s} (published pre post id b w e) v i =
      rw (e, view-publish_tx r view law id b s.redis) (λ none_acked. ground (arith, v i none_acked))
  Step-IsIntact {s} (sealed e) v i = rw (e, law.view-set_sealed s.redis) (v i)
  Step-IsIntact {s} (claimed deadline q c w e) v i =
      let (rest, popped, viewed, _, _) = claim_script-some r view law deadline s.redis w in
      rw (e, viewed) (v i)
  Step-IsIntact {s} (missed deadline q w e) v i =
      rw (e, claim_script-none r view law deadline s.redis w) (v i)
  Step-IsIntact {s} (reclaimed now e) v i = rw e (λ none_acked.
      reclaim_loop-payloads i (r.zrange_by_score now s.redis) s.redis ∙ v i none_acked)
  Step-IsIntact {s} (finalized a k e) v i = rw e (finalize_handle-IsIntact a k s v i)
  Step-IsIntact {s} (failed k e) v i = rw e (finalize_failed-IsIntact k s v i)

  Reach-IsIntact : {s t : System r.State} → Reach r s t → IsIntact s → IsIntact t
  Reach-IsIntact here v = v
  Reach-IsIntact (next p st) v = Step-IsIntact st (Reach-IsIntact p v)

  -- On keys that start empty, every delivery and redelivery of a message that is not acknowledged
  -- hands out what it was published with, whatever the clients do.
  pub claim_returns_sent :
      (empty : r.State) {s : System r.State} (deadline : ℤ) {q : r.State} {c : Claimed}
      → view empty ≡ empty_data
      → Reach r (start r empty) s
      → claim_script r deadline s.redis ≡ (q, some c)
      → count c.id s.acked ≡ 0
      → c.payload ≡ s.sent c.id
  claim_returns_sent empty {s} deadline {q} {c} e p got none_acked =
      let (_, _, _, _, payload) = claim_script-some r view law deadline s.redis got in
      let begin : IsIntact (start r empty) = unfold start in λ i z. rw e refl in
      payload ∙ Reach-IsIntact p begin c.id none_acked
